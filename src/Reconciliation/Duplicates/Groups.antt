-- ===== src/Reconciliation/Duplicates/Groups.antt =====
-- The groups of exact duplicates against a direct description.
use mathlib.Core.List.{append-nil, append_assoc}
use settlement_ops.Base.{
  All, All-Mem, All-map-of, Bool, Bool-cases, List, Mem-keep, Memᴰ, String, [], ap, arith, false,
  if◌then◌else◌, inl, inr, keep, keep-Mem, length, ltb, map, refl, some, str_eq, str_eq_iff, subst,
  sym, true, true-ne-false, ◌++◌, ◌<◌, ◌↔◌, ◌∙◌, ◌∷◌, ◌≡◌, ◌≢◌,
}
use settlement_ops.Reconciliation.Duplicates.{
  DuplicateGroup, exact_source_id, find_exact_duplicates, group_from, push_to,
}
use settlement_ops.Records.{FinancialRecord, base_of}
use settlement_ops.Records.Lineage.{duplicate_key}

-- The list filed under a key; empty if there is none.
abbrev filed : {V : Type 0} → String → List (String × List V) → List V
filed k [] = []
filed k ((j, vs) ∷ m) = if str_eq j k then vs else filed k m

abbrev Fresh : {V : Type 0} → String → List (String × List V) → Type 0
Fresh k m = All (λ e. str_eq e.0 k ≡ false) m

abbrev Distinct : {V : Type 0} → List (String × List V) → Type 0
Distinct [] = Unit
Distinct (e ∷ m) = Fresh e.0 m × Distinct m

str_eq_flip : (i j : String) → str_eq i j ≡ false → str_eq j i ≡ false
str_eq_flip i j h = elim (Bool-cases (str_eq j i)) [
  | inl same ↦ absurd (true-ne-false (sym ((str_eq_iff i j).1 (sym ((str_eq_iff j i).0 same))) ∙ h))
  | inr other ↦ other
]

apart : (i j k : String) → str_eq i j ≡ false → str_eq i k ≡ true → str_eq j k ≡ false
apart i j k h ik = subst (λ x. str_eq j x ≡ false) ((str_eq_iff i k).0 ik) (str_eq_flip i j h)

module _ {V : Type 0} where
  filed-push_to :
      (k j : String) (v : V) (m : List (String × List V))
      → filed k (push_to str_eq j v m) ≡ (if str_eq j k then filed k m ++ (v ∷ []) else filed k m)
  unfolding push_to
  filed-push_to k j v [] = ground arith
  filed-push_to k j v ((i, vs) ∷ m) = elim (Bool-cases (str_eq i j)) [
    | inl hit ↦ rw (hit, push_to) (rw (sym ((str_eq_iff i j).0 hit)) (ground arith))
    | inr miss ↦ rw (miss, push_to) (ground (arith, filed-push_to k j v m, apart i j k miss))
  ]

  Fresh-push_to :
      (k j : String) (v : V) (m : List (String × List V))
      → str_eq j k ≡ false
      → Fresh k m
      → Fresh k (push_to str_eq j v m)
  unfolding push_to
  Fresh-push_to k j v [] h f = (h, tt)
  Fresh-push_to k j v ((i, vs) ∷ m) h (f, fs) = elim (Bool-cases (str_eq i j)) [
    | inl hit ↦ rw (hit, push_to) (f, fs)
    | inr miss ↦ rw (miss, push_to) (f, Fresh-push_to k j v m h fs)
  ]

  Distinct-push_to :
      (j : String) (v : V) (m : List (String × List V))
      → Distinct m
      → Distinct (push_to str_eq j v m)
  unfolding push_to
  Distinct-push_to j v [] d = (tt, tt)
  Distinct-push_to j v ((i, vs) ∷ m) (f, d) = elim (Bool-cases (str_eq i j)) [
    | inl hit ↦ rw (hit, push_to) (f, d)
    | inr miss ↦
        rw (miss, push_to)
          (Fresh-push_to i j v m (str_eq_flip i j miss) f, Distinct-push_to j v m d)
  ]

  joined :
      (b : Bool) (xs : List V) (v : V) (ys : List V)
      → (if b then xs ++ (v ∷ []) else xs) ++ ys ≡ xs ++ (if b then v ∷ ys else ys)
  joined true xs v ys = append_assoc xs (v ∷ []) ys
  joined false xs v ys = refl

  Mem-filed :
      (k : String) (vs : List V) (m : List (String × List V))
      → Distinct m
      → Memᴰ (k, vs) m
      → filed k m ≡ vs
  Mem-filed k vs [] d h = elim h [ ]
  Mem-filed k vs ((i, us) ∷ m) (f, d) (Memᴰ.head e) =
      rw ((str_eq_iff i k).1 (sym (ap (λ e. e.0) e))) (sym (ap (λ e. e.1) e))
  Mem-filed k vs ((i, us) ∷ m) (f, d) (Memᴰ.tail h) =
      rw (All-Mem (λ e. str_eq i e.0 ≡ false) m (All-map-of _ _ (λ e g. str_eq_flip e.0 i g) m f) h)
        (Mem-filed k vs m d h)

  filed-Mem : (k : String) (m : List (String × List V)) → filed k m ≢ [] → Memᴰ (k, filed k m) m
  filed-Mem k [] h = absurd (h refl)
  filed-Mem k ((i, us) ∷ m) h = elim (Bool-cases (str_eq i k)) [
    | inl hit ↦ rw hit (Memᴰ.head (ap (λ j. (j, us)) (sym ((str_eq_iff i k).0 hit))))
    | inr miss ↦ rw miss (Memᴰ.tail (filed-Mem k m (rw miss at h)))
  ]

  module _ (key : V → String) where
    abbrev of_key : String → V → Bool
    of_key k v = str_eq (key v) k

    abbrev grouped : List (String × List V) → List V → List (String × List V)
    grouped = group_from str_eq (λ v. some (key v))

    filed-group_from :
        (k : String) (m : List (String × List V)) (vs : List V)
        → filed k (grouped m vs) ≡ filed k m ++ keep (of_key k) vs
    unfolding group_from keep
    filed-group_from k m [] = sym (append-nil (filed k m))
    filed-group_from k m (v ∷ vs) =
        rw (filed-group_from k (push_to str_eq (key v) v m) vs, filed-push_to k (key v) v m)
          (joined (str_eq (key v) k) (filed k m) v (keep (of_key k) vs))

    Distinct-group_from :
        (m : List (String × List V)) (vs : List V) → Distinct m → Distinct (grouped m vs)
    unfolding group_from
    Distinct-group_from m [] d = d
    Distinct-group_from m (v ∷ vs) d =
        Distinct-group_from (push_to str_eq (key v) v m) vs (Distinct-push_to (key v) v m d)

-- The records of a key, in their order.
abbrev pub records_of : String → List FinancialRecord → List FinancialRecord
records_of k records = keep (λ r. str_eq (duplicate_key (base_of r)) k) records

abbrev pub group_of : String → List FinancialRecord → DuplicateGroup
group_of k records = record {
  key = exact_source_id k;
  ids = map (λ r. (base_of r).id) (records_of k records);
}

module _ {A B : Type 0} (f : A → B) where
  Mem-map : {a : A} {xs : List A} → Memᴰ a xs → Memᴰ (f a) (map f xs)
  Mem-map (Memᴰ.head e) = Memᴰ.head (ap f e)
  Mem-map (Memᴰ.tail m) = Memᴰ.tail (Mem-map m)

  Mem-of_map : {b : B} (xs : List A) → Memᴰ b (map f xs) → (a : A) × Memᴰ a xs × (f a ≡ b)
  Mem-of_map [] m = elim m [ ]
  Mem-of_map (x ∷ xs) (Memᴰ.head e) = (x, Memᴰ.head refl, sym e)
  Mem-of_map (x ∷ xs) (Memᴰ.tail m) =
      let (a, found, same) = Mem-of_map xs m in (a, Memᴰ.tail found, same)

abbrev all_groups : List FinancialRecord → List (String × List FinancialRecord)
all_groups records = grouped (λ r. duplicate_key (base_of r)) [] records

abbrev to_group : String × List FinancialRecord → DuplicateGroup
to_group e = record { key = exact_source_id e.0; ids = map (λ r. (base_of r).id) e.1 }

filed-all_groups :
    (k : String) (records : List FinancialRecord)
    → filed k (all_groups records) ≡ records_of k records
filed-all_groups k records = filed-group_from (λ r. duplicate_key (base_of r)) k [] records

group_sound :
    (records : List FinancialRecord) (k : String) (rs : List FinancialRecord)
    → Memᴰ (k, rs) (all_groups records)
    → rs ≡ records_of k records
group_sound records k rs h =
    sym (
      Mem-filed k rs (all_groups records)
        (Distinct-group_from (λ r. duplicate_key (base_of r)) [] records tt) h)
    ∙ filed-all_groups k records

nonempty : {A : Type 0} (xs : List A) → 1 < length xs → xs ≢ []
nonempty xs h e = (omega (arith, ap length e))

group-complete :
    (records : List FinancialRecord) (k : String)
    → 1 < length (records_of k records)
    → Memᴰ (k, records_of k records) (all_groups records)
group-complete records k h =
    subst (λ rs. Memᴰ (k, rs) (all_groups records)) (filed-all_groups k records)
      (filed-Mem k (all_groups records) (λ e. nonempty _ h (sym (filed-all_groups k records) ∙ e)))

-- A group is among the exact duplicates just when it is the group of a key that two or more of the
-- records have; it lists the ids of all the records of that key in their order.
pub find_exact_duplicates_iff :
    (records : List FinancialRecord) (g : DuplicateGroup)
    → Memᴰ g (find_exact_duplicates records)
      ↔ ((k : String) × (g ≡ group_of k records) × (1 < length (records_of k records)))
unfolding find_exact_duplicates
find_exact_duplicates_iff records g = (sound, complete)
  where
    sound :
        Memᴰ g (find_exact_duplicates records)
        → (k : String) × (g ≡ group_of k records) × (1 < length (records_of k records))
    sound h =
        let (e, kept, made) =
          Mem-of_map to_group (keep (λ e. ltb 1 (length e.1)) (all_groups records)) h in
        let (found, several) = keep-Mem (λ e. ltb 1 (length e.1)) (all_groups records) e kept in
        let same = group_sound records e.0 e.1 found in
        (
          e.0,
          sym made
              ∙ ap (λ rs. record { key = exact_source_id e.0; ids = map (λ r. (base_of r).id) rs })
                  same,
          subst (λ rs. 1 < length rs) same (ground arith),
        )

    complete :
        ((k : String) × (g ≡ group_of k records) × (1 < length (records_of k records)))
        → Memᴰ g (find_exact_duplicates records)
    complete (k, e, several) =
        subst (λ x. Memᴰ x (find_exact_duplicates records)) (sym e)
          (Mem-map to_group (
            Mem-keep (λ e. ltb 1 (length e.1)) (all_groups records) _
              (group-complete records k several) (ground arith)))
