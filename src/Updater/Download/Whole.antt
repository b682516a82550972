-- ===== src/Updater/Download/Whole.antt =====
-- What a download leaves.
use uu_remote_ubuntu_bridge.Prelude.{
  ℕ, ◌+◌, ◌≤◌, ◌<◌, ◌≡◌, ◌↔◌, refl, false, Option, none, some, List, [], ◌∷◌, ◌++◌, length, Result,
  ok, err, ltb, arith, subst, sym, ap, >>=-eq-ok, refuse-eq-ok, length-append, Bool-cases,
  Option-cases, inl, inr,
}
use uu_remote_ubuntu_bridge.Updater.Download.{
  Stream, finish, fails, block, Response, Downloads, DownloadError, read_blocks, over, receive,
  settle, download_release,
}

abbrev then_block : List ℕ → Option (List ℕ) → Option (List ℕ)
then_block bytes none = none
then_block bytes (some rest) = some (bytes ++ rest)

-- The body of a response that ends.
abbrev pub body : Stream → Option (List ℕ)
body finish = some []
body fails = none
body (block b bs stream) = then_block (b ∷ bs) (body stream)

-- The limit lets the response through, whose body has bytes.
pub record Fits (limit : ℕ) (response : Response) (bytes : List ℕ) : Type 0 where
  declared : over limit response.declared ≡ false
  whole : body response.stream ≡ some bytes
  nonempty : 0 < length bytes
  small : length bytes ≤ limit

read_blocks-body :
    (limit total : ℕ) (s : Stream) (bytes : List ℕ)
    → total ≤ limit
    → read_blocks limit total s ≡ ok bytes
    → (body s ≡ some bytes) × (total + length bytes ≤ limit)
unfolding read_blocks
read_blocks-body limit total finish [] h e = (refl, omega arith)
read_blocks-body limit total finish (b ∷ bytes) h e = cc
read_blocks-body limit total fails bytes h e = cc
read_blocks-body limit total (block b bs s) bytes h e =
    let (f, e₁) = refuse-eq-ok (ltb limit (total + length (b ∷ bs))) _ _ e in
    let (rest, g, e₂) = >>=-eq-ok (read_blocks limit (total + length (b ∷ bs)) s) _ e₁ in
    let (i, j) = read_blocks-body limit (total + length (b ∷ bs)) s rest (ground arith) g in
    let same : (b ∷ bs) ++ rest ≡ bytes = cc in
    (rw i (ap some same), rw (sym same) (omega (arith, length-append (b ∷ bs) rest, j)))

body-read_blocks :
    (limit total : ℕ) (s : Stream) (bytes : List ℕ)
    → body s ≡ some bytes
    → total + length bytes ≤ limit
    → read_blocks limit total s ≡ ok bytes
unfolding read_blocks
body-read_blocks limit total finish bytes e h = cc
body-read_blocks limit total fails bytes e h = cc
body-read_blocks limit total (block b bs s) bytes e h = elim (Option-cases (body s)) [
  | inl f ↦ ground (arith, f)
  | inr (rest, f) ↦
      let same : (b ∷ bs) ++ rest ≡ bytes = ground (arith, f) in
      let size : total + length ((b ∷ bs) ++ rest) ≤ limit =
        subst (λ (x : List ℕ). total + length x ≤ limit) (sym same) h in
      let fits : total + length (b ∷ bs) + length rest ≤ limit =
        omega (arith, length-append (b ∷ bs) rest, size) in
      let small : ltb limit (total + length (b ∷ bs)) ≡ false = ground arith in
      rw small (rw (body-read_blocks limit (total + length (b ∷ bs)) s rest f fits) (ap ok same))
]

module _ (limit : ℕ) (response : Response) (bytes : List ℕ) where
  receive-Fits :
      receive limit (some response) ≡ ok bytes → 0 < length bytes → Fits limit response bytes
  receive-Fits e h = elim (Bool-cases (over limit response.declared)) [
    | inl f ↦ ground (arith, f)
    | inr f ↦
        let (whole, small) =
          read_blocks-body limit 0 response.stream bytes (omega arith) (ground (arith, f)) in
        record { declared = f; whole = whole; nonempty = h; small = omega (arith, small) }
  ]

  Fits-receive : Fits limit response bytes → receive limit (some response) ≡ ok bytes
  Fits-receive f =
      rw f.declared
        (body-read_blocks limit 0 response.stream bytes f.whole (omega (arith, f.small)))

settle_ok :
    (r : Result DownloadError (List ℕ)) (d : Downloads) (bytes : List ℕ)
    → (settle r d).0 ≡ ok bytes ↔ (r ≡ ok bytes) × (0 < length bytes)
settle_ok (err e) d bytes = ((λ h. cc), λ (h, n). cc)
settle_ok (ok []) d [] = ((λ h. cc), λ (h, n). ground (arith, n))
settle_ok (ok []) d (b ∷ bytes) = ((λ h. cc), λ (h, n). cc)
settle_ok (ok (b ∷ bs)) d [] = ((λ h. cc), λ (h, n). cc)
settle_ok (ok (b ∷ bs)) d (c ∷ cs) = ((λ h. (h, ground arith)), λ (h, n). h)

settle-err :
    (r : Result DownloadError (List ℕ)) (d : Downloads) (e : DownloadError)
    → (settle r d).0 ≡ err e
    → (settle r d).1 ≡ record d { part = none }
settle-err (err e) d f h = refl
settle-err (ok []) d f h = refl
settle-err (ok (b ∷ bs)) d f h = cc

pub settle-ok :
    (r : Result DownloadError (List ℕ)) (d : Downloads) (bytes : List ℕ)
    → (settle r d).0 ≡ ok bytes
    → (settle r d).1 ≡ record d { installer = some bytes; part = none }
settle-ok (err e) d bytes h = cc
settle-ok (ok []) d bytes h = cc
settle-ok (ok (b ∷ bs)) d bytes h =
    let same : (b ∷ bs) ≡ bytes = cc in
    ap (λ (x : List ℕ). record d { installer = some x; part = none }) same

-- A download returns bytes exactly if the Content-Length is within the limit, the body of the response
-- ends, has bytes and has no more of them than the limit, and these are the bytes of the body. Then
-- they take the place of the installer; on an error the installer is as it was. No partial file is left.
pub download_release-Fits :
    (limit : ℕ) (response : Response) (d : Downloads)
    → let after = download_release limit (some response) d in
      ((bytes : List ℕ)
        → (after.0 ≡ ok bytes ↔ Fits limit response bytes)
          × (after.0 ≡ ok bytes → after.1 ≡ record d { installer = some bytes; part = none }))
      × ((e : DownloadError) → after.0 ≡ err e → after.1 ≡ record d { part = none })
unfolding download_release
download_release-Fits limit response d =
    let r = receive limit (some response) in
    (
      (λ bytes. (
        (
          (λ h. let (e, n) = (settle_ok r d bytes).0 h in receive-Fits limit response bytes e n),
          λ f. (settle_ok r d bytes).1 (Fits-receive limit response bytes f, f.nonempty),
        ),
        settle-ok r d bytes,
      )),
      settle-err r d,
    )
