-- ===== src/Sim/Markers/Ids.antt =====
-- Which samples of a trajectory are shown, and by which ids.
use native.Mathlib.Nat.{mod-eq_of_lt, mod-add-mod, mul-mod_left, mul-div_left, suc-mul}
use gz_drl.Base.{
  ℕ, suc, ◌+◌, ◌-◌, ◌*◌, ◌/◌, ◌%◌, ◌^◌, ◌≤◌, ◌<◌, ◌≡◌, refl, sym, ap, ap₂, subst, ◌∙◌, ◌≢◌, inl,
  inr, List, [], ◌∷◌, arith, nat_beq, if◌then◌else◌, Bool-cases, length, nat_eq, name_eq,
}
use gz_drl.Sim.Markers.{
  MarkerManager, MarkerRequest, show, core_marker, halo_marker, set_marker, set_markers,
}

-- A multiple of `k` less than `k` above another is that one.
same_multiple : (n p k : ℕ) → n ≤ p * k → p * k < n + k → n % k ≡ 0 → n ≡ p * k
same_multiple n p k low high e =
    let d = p * k - n in
    let small : d % k ≡ d = mod-eq_of_lt (omega arith) in
    let here : (n % k + d) % k ≡ (n + d) % k = mod-add-mod n k d in
    let zero_add : d ≡ 0 + d = omega arith in
    let at : d % k ≡ 0 =
      ap (λ x. x % k) zero_add
      ∙ ap (λ x. (x + d) % k) (sym e)
      ∙ here
      ∙ ap (λ x. x % k) (omega arith)
      ∙ mul-mod_left p k in
    omega arith

module _ {P : Type 0} where
  -- After `n` samples the markers that are shown cover the samples in steps of the interval.
  record Seen (n : ℕ) (m : MarkerManager P) : Type 0 where
    seen : m.samples_seen ≡ n
    positive : 0 < m.marker_interval
    few : m.markers_published ≤ n
    low : n ≤ m.markers_published * m.marker_interval
    high : m.markers_published * m.marker_interval < n + m.marker_interval

  shown :
      (n : ℕ) (m : MarkerManager P)
      → Seen n m
      → n % m.marker_interval ≡ 0
      → n ≡ m.markers_published * m.marker_interval
  shown n m s e = same_multiple n m.markers_published m.marker_interval s.low s.high e

  set_marker-Seen :
      (pos : P) (n : ℕ) (m : MarkerManager P)
      → n + 1 < 2 ^ 64
      → Seen n m
      → Seen (n + 1) (set_marker pos m)
  unfolding set_marker
  set_marker-Seen pos n m small s = elim (Bool-cases (nat_beq (n % m.marker_interval) 0)) [
    | inl multiple ↦
        let e : n % m.marker_interval ≡ 0 = ground arith in
        let reached = shown n m s e in
        let counted : (m.markers_published + 1) % 2 ^ 64 ≡ suc m.markers_published =
          mod-eq_of_lt (omega (arith, s.few)) ∙ omega arith in
        let next = suc-mul m.markers_published m.marker_interval in
        let seen_next : (n + 1) % 2 ^ 64 ≡ n + 1 = mod-eq_of_lt small in
        rw (s.seen, multiple)
          (record {
            seen = seen_next;
            positive = s.positive;
            few = rw counted (omega (arith, s.few));
            low = rw (counted, next) (omega (arith, s.positive));
            high = rw (counted, next) (omega (arith, s.positive));
          })
    | inr between ↦
        let seen_next : (n + 1) % 2 ^ 64 ≡ n + 1 = mod-eq_of_lt small in
        let ne : n % m.marker_interval ≢ 0 = ground arith in
        let apart : n ≢ m.markers_published * m.marker_interval =
          λ same. ne (ap (λ x. x % m.marker_interval) same ∙ mul-mod_left _ _) in
        rw (s.seen, between)
          (record {
            seen = seen_next;
            positive = s.positive;
            few = omega (arith, s.few);
            low = omega (arith, s.low, apart);
            high = omega (arith, s.high);
          })
  ]

  -- The requests behind a sample.
  abbrev requests_at : ℕ → ℕ → ℕ → P → List (MarkerRequest P) → List (MarkerRequest P)
  requests_at n marker_interval max_markers pos requests =
      let id = 1 + n / marker_interval % max_markers in
      if nat_beq (n % marker_interval) 0
      then show core_marker id pos ∷ show halo_marker id pos ∷ requests
      else requests

  set_marker-requests :
      (pos : P) (n : ℕ) (m : MarkerManager P)
      → Seen n m
      → (set_marker pos m).requests ≡ requests_at n m.marker_interval m.max_markers pos m.requests
  unfolding set_marker
  set_marker-requests pos n m s = elim (Bool-cases (nat_beq (n % m.marker_interval) 0)) [
    | inl multiple ↦
        let e : n % m.marker_interval ≡ 0 = ground arith in
        let quotient : n / m.marker_interval ≡ m.markers_published =
          ap (λ x. x / m.marker_interval) (shown n m s e)
          ∙ mul-div_left m.markers_published s.positive in
        rw (s.seen, multiple, quotient)
    | inr between ↦ rw (s.seen, between)
  ]

  record SameSettings (m m' : MarkerManager P) : Type 0 where
    same_max : m'.max_markers ≡ m.max_markers
    same_interval : m'.marker_interval ≡ m.marker_interval

  set_marker-SameSettings : (pos : P) (m : MarkerManager P) → SameSettings m (set_marker pos m)
  unfolding set_marker
  set_marker-SameSettings pos m =
      elim (Bool-cases (nat_beq (m.samples_seen % m.marker_interval) 0)) [
        | inl e ↦ rw e (record { same_max = refl; same_interval = refl })
        | inr e ↦ rw e (record { same_max = refl; same_interval = refl })
      ]

  set_markers-Seen :
      (ps : List P) (n : ℕ) (m : MarkerManager P)
      → n + length ps < 2 ^ 64
      → Seen n m
      → Seen (n + length ps) (set_markers ps m) × SameSettings m (set_markers ps m)
  unfolding set_markers
  set_markers-Seen [] n m small s =
      (subst (λ x. Seen x m) (omega arith) s, record { same_max = refl; same_interval = refl })
  set_markers-Seen (pos ∷ ps) n m small s =
      let one = set_marker-SameSettings pos m in
      let (later, kept) =
        set_markers-Seen ps (n + 1) (set_marker pos m) (omega arith)
          (set_marker-Seen pos n m (omega arith) s) in
      (
        subst (λ x. Seen x (set_markers ps (set_marker pos m))) (omega arith) later,
        record {
          same_max = kept.same_max ∙ one.same_max;
          same_interval = kept.same_interval ∙ one.same_interval;
        },
      )

  -- Of the samples of a trajectory, fewer than 2 ^ 64 and counted from 0 since the counters were
  -- reset, every multiple of the interval is shown, at its own position, and no other: the k-th of
  -- them has id `1 + k % max_markers` in both layers, the halo's request coming first.
  pub set_marker-set_markers :
      (ps : List P) (pos : P) (m : MarkerManager P)
      → m.samples_seen ≡ 0
      → m.markers_published ≡ 0
      → 0 < m.marker_interval
      → length ps < 2 ^ 64
      → (set_marker pos (set_markers ps m)).requests ≡ (
          let id = 1 + length ps / m.marker_interval % m.max_markers in
          if nat_beq (length ps % m.marker_interval) 0
          then show core_marker id pos ∷ show halo_marker id pos ∷ (set_markers ps m).requests
          else (set_markers ps m).requests)
  set_marker-set_markers ps pos m none_seen none_published positive small =
      let start : Seen 0 m = record {
        seen = none_seen;
        positive = positive;
        few = omega (arith, none_published);
        low = omega arith;
        high = rw none_published (omega (arith, positive));
      } in
      let (s, kept) = set_markers-Seen ps 0 m (omega arith) start in
      let sent =
        set_marker-requests pos (length ps) (set_markers ps m)
          (subst (λ x. Seen x (set_markers ps m)) (omega arith) s) in
      sent
      ∙ ap₂ (λ k c. requests_at (length ps) k c pos (set_markers ps m).requests) kept.same_interval
          kept.same_max
