-- ===== src/Registry/Sections.antt =====
-- What `parse_registry` finds in a file of sections.
use uu_remote_ubuntu_bridge.Prelude.{
  ◌≡◌, refl, sym, ◌∙◌, ap, String, true, false, Option, none, some, List, [], ◌∷◌, ◌++◌, str_eq,
  if◌then◌else◌, Bool-cases, inl, inr, eq_iff, subst,
}
use uu_remote_ubuntu_bridge.Registry.Parse.{
  Dictionary, assign, lookup, header_name, closed, extended, parse_lines, parse_registry,
}

append_assoc : (xs ys zs : List String) → (xs ++ ys) ++ zs ≡ xs ++ (ys ++ zs)
append_assoc [] ys zs = refl
append_assoc (x ∷ xs) ys zs = ap (λ (l : List String). x ∷ l) (append_assoc xs ys zs)

append_nil : (xs : List String) → xs ++ [] ≡ xs
append_nil [] = refl
append_nil (x ∷ xs) = ap (λ (l : List String). x ∷ l) (append_nil xs)

lookup-assign :
    (name key : String) (body : List String) (d : Dictionary)
    → lookup name (assign key body d) ≡ (if str_eq key name then some body else lookup name d)
unfolding lookup assign
lookup-assign name key body [] = refl
lookup-assign name key body ((k, old) ∷ d) = elim (Bool-cases (str_eq k key)) [
  | inl e ↦
      let same : k ≡ key = (eq_iff k key).0 e in
      elim (Bool-cases (str_eq k name)) [
        | inl f ↦
            let g : str_eq key name ≡ true = subst (λ (x : String). str_eq x name ≡ true) same f in
            rw (e, f, g) refl
        | inr f ↦
            let g : str_eq key name ≡ false =
              subst (λ (x : String). str_eq x name ≡ false) same f in
            rw (e, f, g) refl
      ]
  | inr e ↦ elim (Bool-cases (str_eq k name)) [
    | inl f ↦ elim (Bool-cases (str_eq key name)) [
      | inl g ↦
          let same : name ≡ key = sym ((eq_iff key name).0 g) in
          let bad : str_eq k key ≡ true = subst (λ (x : String). str_eq k x ≡ true) same f in cc
      | inr g ↦ rw (e, f, g) refl
    ]
    | inr f ↦ rw (e, f, lookup-assign name key body d) refl
  ]
]

module _ (lower : String → String) where
  -- Lines of which none begins a section.
  abbrev pub Plain : List String → Type 0
  Plain [] = Unit
  Plain (line ∷ lines) = (header_name lower line ≡ none) × Plain lines

  -- A section as it stands in the file: its first line gives the name.
  pub record Block : Type 0 where
    pub heading : String
    pub name : String
    pub body : List String
    pub heading_eq : header_name lower heading ≡ some name
    pub plain : Plain body

  abbrev pub written : List Block → List String
  written [] = []
  written (b ∷ bs) = b.heading ∷ (b.body ++ written bs)

  -- The body of the last section of the name.
  abbrev pub last_body : String → List Block → Option (List String) → Option (List String)
  last_body name [] found = found
  last_body name (b ∷ bs) found =
      last_body name bs (if str_eq b.name name then some b.body else found)

  line-plain :
      (line : String) (lines : List String) (current : Option (String × List String))
      (d : Dictionary)
      → header_name lower line ≡ none
      → parse_lines lower (line ∷ lines) current d
        ≡ parse_lines lower lines (extended lower line current) d
  unfolding parse_lines
  line-plain line lines current d h = rw (h, parse_lines) refl

  line-heading :
      (line name : String) (lines : List String) (current : Option (String × List String))
      (d : Dictionary)
      → header_name lower line ≡ some name
      → parse_lines lower (line ∷ lines) current d
        ≡ parse_lines lower lines (some (name, [])) (closed lower current d)
  unfolding parse_lines
  line-heading line name lines current d h = rw (h, parse_lines) refl

  parse_lines-Plain :
      (lines rest : List String) (d : Dictionary)
      → Plain lines
      → parse_lines lower (lines ++ rest) none d ≡ parse_lines lower rest none d
  parse_lines-Plain [] rest d h = refl
  parse_lines-Plain (line ∷ lines) rest d (p, ps) =
      line-plain line (lines ++ rest) none d p ∙ parse_lines-Plain lines rest d ps

  parse_lines-body :
      (lines rest : List String) (name : String) (body : List String) (d : Dictionary)
      → Plain lines
      → parse_lines lower (lines ++ rest) (some (name, body)) d
        ≡ parse_lines lower rest (some (name, body ++ lines)) d
  parse_lines-body [] rest name body d h =
      ap (λ (b : List String). parse_lines lower rest (some (name, b)) d) (sym (append_nil body))
  parse_lines-body (line ∷ lines) rest name body d (p, ps) =
      line-plain line (lines ++ rest) (some (name, body)) d p
      ∙ (parse_lines-body lines rest name (body ++ (line ∷ [])) d ps
          ∙ ap (λ (b : List String). parse_lines lower rest (some (name, b)) d)
              (append_assoc body (line ∷ []) lines))

  lookup-parse_lines :
      (name : String) (blocks : List Block) (current : Option (String × List String))
      (d : Dictionary)
      → lookup name (parse_lines lower (written blocks) current d)
        ≡ last_body name blocks (lookup name (closed lower current d))
  unfolding parse_lines
  lookup-parse_lines name [] current d = refl
  lookup-parse_lines name (b ∷ bs) current d =
      ap (lookup name) (line-heading b.heading b.name (b.body ++ written bs) current d b.heading_eq)
      ∙ (ap (lookup name)
            (parse_lines-body b.body (written bs) b.name [] (closed lower current d) b.plain)
          ∙ (lookup-parse_lines name bs (some (b.name, b.body)) (closed lower current d)
              ∙ ap (last_body name bs) (lookup-assign name b.name b.body (closed lower current d))))

  -- In a file of sections, each of which begins with a line that gives its name and has no other such
  -- line, the dictionary holds under a name the lines of the last section of this name, in their order,
  -- and nothing if there is none. Lines before the first section are passed over.
  pub parse_registry_lem :
      (name : String) (before : List String) (blocks : List Block)
      → Plain before
      → lookup name (parse_registry lower (before ++ written blocks)) ≡ last_body name blocks none
  unfolding parse_registry lookup
  parse_registry_lem name before blocks h =
      ap (lookup name) (parse_lines-Plain before (written blocks) [] h)
      ∙ lookup-parse_lines name blocks none []
