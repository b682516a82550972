-- ===== src/Promotion/Login.antt =====
-- scripts/promote-approved-release.py: `directory_state`, `login_state_is_usable` and
-- `login_state_is_preserved`. A directory is the sorted list of what `rglob` finds in it.
pub mod Preserved
pub mod Unseen
use uu_remote_ubuntu_bridge.Prelude.{
  ℕ, zero, suc, ◌+◌, ◌/◌, ◌%◌, String, Bool, true, false, ◌&&◌, ◌||◌, not, Option, none, some, List,
  [], ◌∷◌, ◌++◌, length, str_eq, ◌==◌, ltb, if◌then◌else◌,
}
use uu_remote_ubuntu_bridge.Python.Text.{is_empty, member, codes}

-- `regular` says that it is a file and no symbolic link; `content` is `none` if reading it raises.
pub record Entry : Type 0 where
  pub relative : String
  pub regular : Bool
  pub content : Option (List ℕ)

pub record DirectoryState : Type 0 where
  pub present : Bool
  pub files : ℕ
  pub bytes : ℕ
  pub digest : String

decimal_digits : ℕ → ℕ → List ℕ → List ℕ
decimal_digits zero n acc = acc
decimal_digits (suc fuel) n acc =
    let more = decimal_digits fuel (n / 10) ((n % 10 + b'0') ∷ acc) in
    if ltb n 10 then (n + b'0') ∷ acc else more

-- `str(n).encode("ascii")`
unfoldable pub decimal : ℕ → List ℕ
unfolding decimal_digits
decimal n = decimal_digits (suc n) n []

-- What one file adds to the digest: its name, its size and its bytes.
unfoldable pub record_of : String → List ℕ → List ℕ
record_of relative content = codes relative ++ 0 ∷ (decimal (length content) ++ 0 ∷ content)

-- The files that count.
unfoldable pub counts : List String → Entry → Bool
counts ignored e = e.regular && not (member e.relative ignored)

module _ (sha256 : List ℕ → String) (ignored : List String) where
  -- The loop, with the bytes given to the digest so far and the two counts.
  unfoldable pub walk : List Entry → List ℕ → ℕ → ℕ → DirectoryState
  walk [] fed files size = record {
    present = true;
    files = files;
    bytes = size;
    digest = sha256 fed;
  }
  walk (e ∷ es) fed files size = elim (counts ignored e) [
    | false ↦ walk es fed files size
    | true ↦ elim e.content [
      | none ↦ record { present = true; files = files; bytes = size; digest = "" }
      | some content ↦
          walk es (fed ++ record_of e.relative content) (files + 1) (size + length content)
    ]
  ]

  -- `directory_state`; `none` if the path is no directory.
  unfoldable pub directory_state : Option (List Entry) → DirectoryState
  directory_state none = record { present = false; files = 0; bytes = 0; digest = "" }
  directory_state (some es) = walk es [] 0 0

pub record LoginState : Type 0 where
  pub registry_login_digest : String
  pub user_cache : DirectoryState
  pub shared_state : DirectoryState

-- `login_state`: the registry digest and the two directories, of which the second is read without
-- `NON_ACCOUNT_SHARED_STATE`.
unfoldable pub login_state :
    (List ℕ → String) → String → Option (List Entry) → Option (List Entry) → LoginState
login_state sha256 registry_digest user_cache shared_state = record {
  registry_login_digest = registry_digest;
  user_cache = directory_state sha256 [] user_cache;
  shared_state = directory_state sha256 ("setting.ini" ∷ []) shared_state;
}

abbrev pub holds_files : DirectoryState → Bool
holds_files d = d.present && ltb 0 d.files && not (is_empty d.digest)

-- `login_state_is_usable`
unfoldable pub login_state_is_usable : LoginState → Bool
login_state_is_usable s =
    not (is_empty s.registry_login_digest)
    && (holds_files s.user_cache || holds_files s.shared_state)

-- A directory that was there is there, with the same files, bytes and digest.
abbrev pub unchanged : DirectoryState → DirectoryState → Bool
unchanged prior current =
    not prior.present
    || (current.present
        && prior.files == current.files
        && prior.bytes == current.bytes
        && str_eq prior.digest current.digest)

-- `login_state_is_preserved`
unfoldable pub login_state_is_preserved : LoginState → LoginState → Bool
login_state_is_preserved before after =
    login_state_is_usable before
    && login_state_is_usable after
    && str_eq before.registry_login_digest after.registry_login_digest
    && unchanged before.user_cache after.user_cache
    && unchanged before.shared_state after.shared_state
