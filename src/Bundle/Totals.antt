-- ===== src/Bundle/Totals.antt =====
-- The totals in a manifest (src/ccreport/bundle.py).
use ccreport.Prelude.{
  ◌≡◌, refl, sym, ap, ◌∙◌, true, Option, none, some, List, [], ◌∷◌, ◌++◌, arith, All, length,
  Option-cases, inl, inr,
}
use ccreport.Prelude.Int.{ℤ, pos, ◌+ℤ◌, int_laws}
use ccreport.Prelude.Texts.{Text, text_eq, text_eq_iff, contains}
use ccreport.Access.Seeding.{sorted_set}
use ccreport.Access.Seeding.Laws.{contains-sorted_set}
use ccreport.Reports.Model.{ReportItem}
use ccreport.Bundle.Manifest.{
  cents_of, currency_of, total_cents, used_currencies, single_currency, totals_of,
}
use ccreport.Bundle.{BundleEntry, print_cents, format_amount}

-- The sum of the amounts of items.
abbrev pub sum_of : List ReportItem → ℤ
sum_of [] = pos 0
sum_of (item ∷ items) = cents_of item +ℤ sum_of items

+ℤ_zero : (a : ℤ) → a +ℤ pos 0 ≡ a
+ℤ_zero a = omega int_laws

+ℤ_assoc : (a b c : ℤ) → (a +ℤ b) +ℤ c ≡ a +ℤ (b +ℤ c)
+ℤ_assoc a b c = omega int_laws

total_cents_lem :
    (total : ℤ) (items : List ReportItem) → total_cents total items ≡ total +ℤ sum_of items
unfolding total_cents
total_cents_lem total [] = sym (+ℤ_zero total)
total_cents_lem total (item ∷ items) =
    total_cents_lem (total +ℤ cents_of item) items ∙ +ℤ_assoc total (cents_of item) (sum_of items)

zero_+ℤ : (a : ℤ) → pos 0 +ℤ a ≡ a
zero_+ℤ a = omega int_laws

single : (xs : List Text) {c : Text} → single_currency xs ≡ some c → xs ≡ c ∷ []
unfolding single_currency
single [] e = cc
single (x ∷ []) e = cc
single (x ∷ y ∷ xs) e = cc

contains_all :
    (xs : List Text) (c : Text) → ((x : Text) → contains x xs ≡ true → x ≡ c) → All (λ x. x ≡ c) xs
contains_all [] c h = tt
contains_all (x ∷ xs) c h = (
  h x (ground (arith, (text_eq_iff x x).1 refl)),
  contains_all xs c λ y there. h y (ground (arith, there)),
)

-- Every item with an amount has this currency; one that names none counts as US dollars.
abbrev pub AllIn : Text → List ReportItem → Type 0
AllIn code [] = Unit
AllIn code (item ∷ items) = All (λ x. x ≡ code) (currency_of item) × AllIn code items

All-split : (P : Text → Type 0) (xs ys : List Text) → All P (xs ++ ys) → All P xs × All P ys
All-split P [] ys h = (tt, h)
All-split P (x ∷ xs) ys h = let rest = All-split P xs ys h.1 in ((h.0, rest.0), rest.1)

AllIn-of_used :
    (code : Text) (items : List ReportItem)
    → All (λ x. x ≡ code) (used_currencies items)
    → AllIn code items
unfolding used_currencies
AllIn-of_used code [] h = tt
AllIn-of_used code (item ∷ items) h =
    let parts = All-split _ (currency_of item) (used_currencies items) h in
    (parts.0, AllIn-of_used code items parts.1)

only_text : (x c : Text) → contains x (c ∷ []) ≡ true → text_eq x c ≡ true
only_text x c h = ground (arith, h)

-- What is printed for a total in this currency, if there is one currency.
abbrev pub IsPrinted : List ReportItem → Option Text → Option Text → Type 0
IsPrinted items none amount = amount ≡ none
IsPrinted items (some code) amount =
    AllIn code items × (amount ≡ some (print_cents (sum_of items) (some code)))

single-AllIn :
    (items : List ReportItem) (code : Text)
    → single_currency (sorted_set (used_currencies items)) ≡ some code
    → AllIn code items
single-AllIn items code e =
    let used = used_currencies items in
    let only : sorted_set used ≡ code ∷ [] = single (sorted_set used) {c = code} e in
    AllIn-of_used code items (
      contains_all used code λ x there.
        let listed : contains x (code ∷ []) ≡ true =
          ap (contains x) (sym only) ∙ contains-sorted_set x used ∙ there in
        (text_eq_iff x code).0 (only_text x code listed))

-- The totals count the items and the entries and list the currencies that items with amounts use. The
-- number of cents is the sum of the amounts whatever their currencies, also where they differ. If the
-- manifest states one currency, every item with an amount has it, and the amount that is printed is the
-- sum in that currency; otherwise no amount is printed.
pub totals_lem :
    (items : List ReportItem) (entries : List BundleEntry)
    → let totals = totals_of items entries in
      (totals.items ≡ length items)
      × (totals.artifacts ≡ length entries)
      × (totals.amount_cents ≡ sum_of items)
      × ((code : Text) → contains code totals.currencies ≡ contains code (used_currencies items))
      × IsPrinted items totals.currency totals.amount
unfolding totals_of format_amount
totals_lem items entries =
    let total : total_cents (pos 0) items ≡ sum_of items =
      total_cents_lem (pos 0) items ∙ zero_+ℤ (sum_of items) in
    (
      refl,
      refl,
      total,
      λ code. contains-sorted_set code (used_currencies items),
      elim (Option-cases (single_currency (sorted_set (used_currencies items)))) [
        | inl several ↦ rw (several, totals_of) refl
        | inr (code, one) ↦
            rw (one, totals_of)
              (single-AllIn items code one, ap (λ t. some (print_cents t (some code))) total)
      ],
    )
