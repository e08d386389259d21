-- ===== src/Sim/Splitter.antt =====
-- `DRLHelperSystem::model_name_splitter` of GzDRL/src/rl_server.cc: the parts of a nested model's
-- name, which "::" separates.
use gz_drl.Base.{
  ℕ, zero, suc, ◌≤◌, ◌≡◌, refl, sym, ap, subst, ◌∙◌, inl, inr, true, false, ◌&&◌, Option, none,
  some, List, [], ◌∷◌, ◌++◌, arith, nat_beq, if◌then◌else◌, nat_beq_iff, Bool-cases, Option-cases,
  length, length-append, All, Name, nat_eq, name_eq,
}

-- `s.find("::", pos)` on what is left of the name: what stands before the delimiter and behind it.
unfoldable pub find_delimiter : Name → Option (Name × Name)
find_delimiter [] = none
find_delimiter (a ∷ []) = none
find_delimiter (a ∷ b ∷ s) =
    let later = find_delimiter (b ∷ s) in
    if nat_beq a b':' && nat_beq b b':'
    then some ([], s)
    else elim later [ none ↦ none | some (before, after) ↦ some (a ∷ before, after) ]

-- The loop, with at most this many delimiters.
unfoldable pub split : ℕ → Name → List Name
unfolding find_delimiter
split zero s = s ∷ []
split (suc fuel) s = elim (find_delimiter s) [
  | none ↦ s ∷ []
  | some (before, after) ↦ before ∷ split fuel after
]

-- A name has fewer delimiters than characters.
unfoldable pub model_name_splitter : Name → List Name
unfolding split
model_name_splitter s = split (length s) s

-- The parts with "::" between them.
unfoldable pub join_parts : List Name → Name
join_parts [] = []
join_parts (p ∷ []) = p
join_parts (p ∷ q ∷ ps) = p ++ b':' ∷ b':' ∷ join_parts (q ∷ ps)

-- A part that was cut off in front of a character keeps out the delimiter.
no_delimiter :
    (a b : ℕ) (s before after : Name)
    → (nat_beq a b':' && nat_beq b b':') ≡ false
    → b ∷ s ≡ before ++ b':' ∷ b':' ∷ after
    → find_delimiter before ≡ none
    → find_delimiter (a ∷ before) ≡ none
unfolding find_delimiter
no_delimiter a b s [] after other e h = refl
no_delimiter a b s (c ∷ before) after other e h =
    let same : b ≡ c = ground arith in
    let apart : (nat_beq a b':' && nat_beq c b':') ≡ false =
      subst (λ x. (nat_beq a b':' && nat_beq x b':') ≡ false) same other in
    rw (apart, h)

module _ (a b : ℕ) (s : Name) where
  find-here : (nat_beq a b':' && nat_beq b b':') ≡ true → find_delimiter (a ∷ b ∷ s) ≡ some ([], s)
  unfolding find_delimiter
  find-here h = rw h

  find-later :
      (o : Option (Name × Name))
      → (nat_beq a b':' && nat_beq b b':') ≡ false
      → find_delimiter (b ∷ s) ≡ o
      → find_delimiter (a ∷ b ∷ s)
        ≡ (elim o [ none ↦ none | some (before, after) ↦ some (a ∷ before, after) ])
  unfolding find_delimiter
  find-later o h e = rw (h, e)

found :
    (s before after : Name)
    → find_delimiter s ≡ some (before, after)
    → (s ≡ before ++ b':' ∷ b':' ∷ after) × (find_delimiter before ≡ none)
unfolding find_delimiter
found [] before after h = ground arith
found (a ∷ []) before after h = ground arith
found (a ∷ b ∷ s) before after h = elim (Bool-cases (nat_beq a b':' && nat_beq b b':')) [
  | inl here ↦
      let e : ◌≡◌ {A = Option (Name × Name)} (some ([], s)) (some (before, after)) =
        sym (find-here a b s here) ∙ h in
      ground (arith, nat_beq_iff a b':', nat_beq_iff b b':')
  | inr other ↦ elim (Option-cases (find_delimiter (b ∷ s))) [
    | inl none_left ↦
        let lost : ◌≡◌ {A = Option (Name × Name)} none (some (before, after)) =
          sym (find-later a b s none other none_left) ∙ h in
        absurd (ground arith)
    | inr ((front, behind), e) ↦
        let (joins, clean) = found (b ∷ s) front behind e in
        let same : ◌≡◌ {A = Option (Name × Name)} (some (a ∷ front, behind))
            (some (before, after)) =
          sym (find-later a b s _ other e) ∙ h in
        ground (arith, no_delimiter a b s front behind other joins clean)
  ]
]

split-cons : (fuel : ℕ) (s : Name) → (p : Name) × (ps : List Name) × (split fuel s ≡ p ∷ ps)
unfolding split
split-cons zero s = (s, [], refl)
split-cons (suc fuel) s = go (find_delimiter s)
  where
    go :
        (o : Option (Name × Name))
        → (p : Name) × (ps : List Name) × ((elim o [
          | none ↦ s ∷ []
          | some (before, after) ↦ before ∷ split fuel after
        ])
            ≡ p ∷ ps)
    go none = (s, [], refl)
    go (some (before, after)) = (before, split fuel after, refl)

join_parts-cons :
    (p : Name) (fuel : ℕ) (s : Name)
    → join_parts (p ∷ split fuel s) ≡ p ++ b':' ∷ b':' ∷ join_parts (split fuel s)
unfolding join_parts
join_parts-cons p fuel s = let (q, qs, e) = split-cons fuel s in rw e

-- A name that no part of is left uncut.
IsSplit : Name → List Name → Type 0
IsSplit s ps = (join_parts ps ≡ s) × All (λ p. find_delimiter p ≡ none) ps

module _ (fuel : ℕ) (s : Name) where
  split_at : Option (Name × Name) → List Name
  split_at none = s ∷ []
  split_at (some (before, after)) = before ∷ split fuel after

  split-none : find_delimiter s ≡ none → split (suc fuel) s ≡ s ∷ []
  unfolding split split_at
  split-none e = ap split_at e

  split-found :
      (before after : Name)
      → find_delimiter s ≡ some (before, after)
      → split (suc fuel) s ≡ before ∷ split fuel after
  unfolding split split_at
  split-found before after e = ap split_at e

split-IsSplit : (fuel : ℕ) (s : Name) → length s ≤ fuel → IsSplit s (split fuel s)
unfolding split join_parts IsSplit find_delimiter
split-IsSplit zero [] h = (refl, (refl, tt))
split-IsSplit zero (c ∷ s) h = absurd (omega arith)
split-IsSplit (suc fuel) s h = elim (Option-cases (find_delimiter s)) [
  | inl none_left ↦ subst (IsSplit s) (sym (split-none fuel s none_left)) (refl, (none_left, tt))
  | inr ((before, after), e) ↦
      let (joins, clean) = found s before after e in
      let shorter : length after ≤ fuel =
        omega (arith, ap length joins, length-append before (b':' ∷ b':' ∷ after)) in
      let (joins', clean') = split-IsSplit fuel after shorter in
      let parts : IsSplit s (before ∷ split fuel after) = (
        join_parts-cons before fuel after ∙ ap (λ l. before ++ b':' ∷ b':' ∷ l) joins' ∙ sym joins,
        (clean, clean'),
      ) in
      subst (IsSplit s) (sym (split-found fuel s before after e)) parts
]

-- The parts of a model's name make it up again with "::" between them, and "::" occurs in none.
pub model_name_splitter_lem :
    (s : Name)
    → (join_parts (model_name_splitter s) ≡ s)
      × All (λ p. find_delimiter p ≡ none) (model_name_splitter s)
unfolding model_name_splitter IsSplit
model_name_splitter_lem s = split-IsSplit (length s) s (omega arith)
