-- ===== src/Money/Laws.antt =====
-- Laws of money arithmetic.
use settlement_ops.Base.{
  All, Bool-cases, List, [], ap, arith, err, false, inl, inr, int_laws, map, ok, pos, str_eq,
  str_eq_iff, sym, true-ne-false, ℤ, ◌+ℤ◌, ◌-ℤ◌, ◌>>=◌, ◌∙◌, ◌∷◌, ◌≡◌, ◌≢◌,
}
use settlement_ops.Money.{
  Currency, Money, MoneyError, add, compare, currency_mismatch, equals, money, subtract, sum,
  sum_from,
}

-- Both ways to meet a currency test.
pub add_same :
    (a b : Money)
    → a.currency ≡ b.currency
    → add a b ≡ ok (money (a.amount_minor +ℤ b.amount_minor) a.currency)
unfolding add
add_same a b h = ground (arith, str_eq_iff a.currency b.currency)

pub add_other :
    (a b : Money)
    → a.currency ≢ b.currency
    → add a b ≡ err (currency_mismatch a.currency b.currency)
unfolding add
add_other a b h = ground (arith, str_eq_iff a.currency b.currency)

sub-add_cancel : (a b : ℤ) → a -ℤ b +ℤ b ≡ a
sub-add_cancel a b = omega int_laws

pub subtract_same :
    (a b : Money)
    → a.currency ≡ b.currency
    → subtract a b ≡ ok (money (a.amount_minor -ℤ b.amount_minor) a.currency)
unfolding subtract
subtract_same a b h = ground (arith, str_eq_iff a.currency b.currency)

-- In one currency, subtracting an amount and adding it back gives the first amount.
pub add-subtract : (a b : Money) → a.currency ≡ b.currency → (subtract a b >>= λ d. add d b) ≡ ok a
add-subtract a b h = rw (subtract_same a b h) (
    add_same (money (a.amount_minor -ℤ b.amount_minor) a.currency) b h
    ∙ ap (λ x. ok (money x a.currency)) (sub-add_cancel a.amount_minor b.amount_minor))

-- Across currencies no operation on two amounts succeeds, and `equals` is false.
pub mismatch_refused :
    (a b : Money)
    → a.currency ≢ b.currency
    → let e = currency_mismatch a.currency b.currency in
      (add a b ≡ err e) × (subtract a b ≡ err e) × (compare a b ≡ err e) × (equals a b ≡ false)
unfolding add subtract compare equals
mismatch_refused a b h = ground (arith, str_eq_iff a.currency b.currency)

-- The total of amounts, as plain integers.
abbrev pub total : List ℤ → ℤ
total [] = pos 0
total (x ∷ xs) = x +ℤ total xs

abbrev pub amounts : List Money → List ℤ
amounts = map (λ m. m.amount_minor)

add-zero_ℤ : (x : ℤ) → x ≡ x +ℤ pos 0
add-zero_ℤ x = omega int_laws

add_regroup : (x y z : ℤ) → x +ℤ y +ℤ z ≡ x +ℤ (y +ℤ z)
add_regroup x y z = omega int_laws

sum_from-eq-total :
    (acc : ℤ) (xs : List Money) (c : Currency)
    → All (λ m. m.currency ≡ c) xs
    → sum_from (money acc c) xs ≡ ok (money (acc +ℤ total (amounts xs)) c)
unfolding sum_from
sum_from-eq-total acc [] c hs = ap (λ x. ok (money x c)) (add-zero_ℤ acc)
sum_from-eq-total acc (x ∷ xs) c hs = rw (add_same (money acc c) x (sym hs.0)) (
    sum_from-eq-total (acc +ℤ x.amount_minor) xs c hs.1
    ∙ ap (λ y. ok (money y c)) (add_regroup acc x.amount_minor (total (amounts xs))))

-- The sum of amounts in one currency is the amount of their total, in that currency.
pub sum-eq-total :
    (x : Money) (xs : List Money)
    → All (λ m. m.currency ≡ x.currency) xs
    → sum (x ∷ xs) ≡ ok (money (total (amounts (x ∷ xs))) x.currency)
unfolding sum
sum-eq-total x xs hs = sum_from-eq-total x.amount_minor xs x.currency hs

ok-ne-err : {t : Money} {e : MoneyError} → ok t ≡ err e → ⊥
ok-ne-err h = cc

sum_from-one_currency :
    (acc : Money) (xs : List Money) (t : Money)
    → sum_from acc xs ≡ ok t
    → (t.currency ≡ acc.currency) × All (λ m. m.currency ≡ acc.currency) xs
unfolding sum_from
sum_from-one_currency acc [] t h = (cc, tt)
sum_from-one_currency acc (x ∷ xs) t h = elim (Bool-cases (str_eq acc.currency x.currency)) [
  | inl e ↦
      let same_code = (str_eq_iff acc.currency x.currency).0 e in
      let h' = rw (add_same acc x same_code) at h in
      let (top, rest) =
        sum_from-one_currency (money (acc.amount_minor +ℤ x.amount_minor) acc.currency) xs t h' in
      (top, (sym same_code, rest))
  | inr e ↦
      let other_code : acc.currency ≢ x.currency =
        λ q. true-ne-false (sym ((str_eq_iff acc.currency x.currency).1 q) ∙ e) in
      absurd (ok-ne-err (sym h ∙ ap (λ r. r >>= λ a. sum_from a xs) (add_other acc x other_code)))
]

-- A sum succeeds only over amounts in one currency, which is the currency of the result.
pub sum-one_currency :
    (x : Money) (xs : List Money) (t : Money)
    → sum (x ∷ xs) ≡ ok t
    → (t.currency ≡ x.currency) × All (λ m. m.currency ≡ x.currency) xs
unfolding sum
sum-one_currency x xs t h = sum_from-one_currency x xs t h
