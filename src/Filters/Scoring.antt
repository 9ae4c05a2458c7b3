-- ===== src/Filters/Scoring.antt =====
-- The score of a message (src/ccreport/filters.py).
use mathlib.Core.Path.{subst}
use ccreport.Prelude.{
  ℕ, ◌+◌, ◌*◌, ◌≤◌, ◌≡◌, ◌↔◌, ◌⊎◌, refl, Bool, true, false, Option, none, List, [], arith, length,
  is_some, not, inl, inr,
}
use ccreport.Prelude.Int.{ℤ, pos, pos_part, neg_part, negsuc, ◌≤ℤ◌, ◌+ℤ◌, ltb_ℤ, int_laws}
use ccreport.Prelude.Texts.{Text}
use ccreport.Connectors.{MessageHeader}
use ccreport.Regex.{search_from}
use ccreport.Filters.Amounts.{extract_amount}
use ccreport.Filters.Words.{keyword_hits}
use ccreport.Filters.Vendors.{extract_vendor, match_known_vendor}
use ccreport.Filters.{notes_of, Signals, signals_of, score_of, score_message, weighted, min}

-- A gain: not below 0, and not above the weight.
weighted_gain :
    (found : Bool) (n : ℕ)
    → (pos_part (weighted found (pos n)) ≤ n) × (neg_part (weighted found (pos n)) ≡ 0)
weighted_gain true n = (omega arith, refl)
weighted_gain false n = (omega arith, refl)

weighted_loss :
    (found : Bool) (n : ℕ)
    → (pos_part (weighted found (negsuc n)) ≡ 0) × (neg_part (weighted found (negsuc n)) ≤ n + 1)
weighted_loss true n = (refl, omega arith)
weighted_loss false n = (refl, omega arith)

min_le : (k : ℕ) → min (k * 2) 4 ≤ 4
min_le k = ground arith

-- The sum of six parts lies between the sums of their bounds.
six_parts :
    (a b c d e f : ℤ)
    → (pos_part a ≤ 3) × (neg_part a ≡ 0)
    → (pos_part b ≤ 4) × (neg_part b ≡ 0)
    → (pos_part c ≤ 2) × (neg_part c ≡ 0)
    → (pos_part d ≤ 2) × (neg_part d ≡ 0)
    → (pos_part e ≡ 0) × (neg_part e ≤ 2)
    → (pos_part f ≡ 0) × (neg_part f ≤ 2)
    → let score = pos 0 +ℤ a +ℤ b +ℤ c +ℤ d +ℤ e +ℤ f in (negsuc 3 ≤ℤ score) × (score ≤ℤ pos 11)
six_parts a b c d e f ha hb hc hd he hf = (
  omega (int_laws, ha.0, ha.1, hb.0, hb.1, hc.0, hc.1, hd.0, hd.1, he.0, he.1, hf.0, hf.1),
  omega (int_laws, ha.0, ha.1, hb.0, hb.1, hc.0, hc.1, hd.0, hd.1, he.0, he.1, hf.0, hf.1),
)

at_least_media :
    (b c d : ℤ)
    → neg_part b ≡ 0
    → neg_part c ≡ 0
    → neg_part d ≡ 0
    → pos 3 ≤ℤ (pos 0 +ℤ pos 3 +ℤ b +ℤ c +ℤ d +ℤ pos 0 +ℤ pos 0)
at_least_media b c d hb hc hd = omega (int_laws, hb, hc, hd)

at_most_two :
    (c d e f : ℤ)
    → pos_part c + pos_part d ≤ 2
    → pos_part e ≡ 0
    → pos_part f ≡ 0
    → pos 3 ≤ℤ (pos 0 +ℤ pos 0 +ℤ pos 0 +ℤ c +ℤ d +ℤ e +ℤ f)
    → ⊥
at_most_two c d e f h he hf k = omega (int_laws, h, he, hf, k)

score_of_bounds : (s : Signals) → (negsuc 3 ≤ℤ score_of s) × (score_of s ≤ℤ pos 11)
unfolding score_of
score_of_bounds s =
    six_parts _ _ _ _ _ _ (weighted_gain s.media 3) (min_le (length s.keywords), refl)
      (weighted_gain (is_some s.amount) 2) (weighted_gain (is_some s.vendor) 2)
      (weighted_loss s.marketing 1) (weighted_loss s.calendar 1)

-- With receipt media, and neither marketing nor an invitation, the score is 3 or more.
score_of_media :
    (s : Signals) → s.media ≡ true → s.marketing ≡ false → s.calendar ≡ false → pos 3 ≤ℤ score_of s
unfolding score_of
score_of_media s media marketing calendar =
    rw (media, marketing, calendar)
      (at_least_media _ _ _ refl ((weighted_gain (is_some s.amount) 2).1)
        ((weighted_gain (is_some s.vendor) 2).1))

both_or_less :
    (a b : Bool)
    → ((a ≡ true) × (b ≡ true))
      ⊎ (pos_part (weighted a (pos 2)) + pos_part (weighted b (pos 2)) ≤ 2)
both_or_less true true = inl (refl, refl)
both_or_less true false = inr (omega arith)
both_or_less false true = inr (omega arith)
both_or_less false false = inr (omega arith)

-- Without receipt media and without a keyword, it takes an amount and a vendor to reach 3.
score_of_few :
    (s : Signals)
    → s.media ≡ false
    → s.keywords ≡ []
    → pos 3 ≤ℤ score_of s
    → (is_some s.amount ≡ true) × (is_some s.vendor ≡ true)
unfolding score_of
score_of_few s media keywords h =
    let reached : pos 3 ≤ℤ (
        pos 0
        +ℤ pos 0
        +ℤ pos 0
        +ℤ weighted (is_some s.amount) (pos 2)
        +ℤ weighted (is_some s.vendor) (pos 2)
        +ℤ weighted s.marketing (negsuc 1)
        +ℤ weighted s.calendar (negsuc 1)) =
      subst
        (λ ks. pos 3 ≤ℤ (
          pos 0
          +ℤ pos 0
          +ℤ pos (min (length ks * 2) 4)
          +ℤ weighted (is_some s.amount) (pos 2)
          +ℤ weighted (is_some s.vendor) (pos 2)
          +ℤ weighted s.marketing (negsuc 1)
          +ℤ weighted s.calendar (negsuc 1)))
        keywords
        (subst
          (λ m. pos 3 ≤ℤ (
            pos 0
            +ℤ weighted m (pos 3)
            +ℤ pos (min (length s.keywords * 2) 4)
            +ℤ weighted (is_some s.amount) (pos 2)
            +ℤ weighted (is_some s.vendor) (pos 2)
            +ℤ weighted s.marketing (negsuc 1)
            +ℤ weighted s.calendar (negsuc 1)))
          media h) in
    elim (both_or_less (is_some s.amount) (is_some s.vendor)) [
      | inl both ↦ both
      | inr less ↦ absurd (
          at_most_two _ _ _ _ less ((weighted_loss s.marketing 1).0)
            ((weighted_loss s.calendar 1).0) reached)
    ]

at_threshold : (score : ℤ) → (not (ltb_ℤ score (pos 3)) ≡ true) ↔ (pos 3 ≤ℤ score)
at_threshold score = ground arith

-- a message without what scoring writes
abbrev pub but_scored : MessageHeader → MessageHeader
but_scored header = record header {
  amount_hint_cents = none;
  currency_hint = none;
  vendor_hint = none;
  receipt_score = pos 0;
  likely_receipt = false;
  matched_signals = [];
}

-- The score of every message lies between -4 and 11, and the message is marked as a likely receipt
-- exactly if its score is 3 or more. With a receipt attached it is marked unless it looks like
-- marketing or an invitation, and without a receipt attached and without a keyword it is marked only if
-- both an amount and a vendor are found.
pub score_message_bounds :
    (vendors : List (Text × Text)) (body : Option Text) (header : MessageHeader)
    → let scored = score_message vendors body header in
      let s = signals_of vendors body header in
      (negsuc 3 ≤ℤ scored.receipt_score)
      × (scored.receipt_score ≤ℤ pos 11)
      × ((scored.likely_receipt ≡ true) ↔ (pos 3 ≤ℤ scored.receipt_score))
      × (s.media ≡ true → s.marketing ≡ false → s.calendar ≡ false → scored.likely_receipt ≡ true)
      × (s.media ≡ false
          → s.keywords ≡ []
          → scored.likely_receipt ≡ true
          → (is_some s.amount ≡ true) × (is_some s.vendor ≡ true))
unfolding score_message
score_message_bounds vendors body header =
    let s = signals_of vendors body header in
    let bounds = score_of_bounds s in
    let marked = at_threshold (score_of s) in
    (
      bounds.0,
      bounds.1,
      marked,
      (λ media marketing calendar. marked.1 (score_of_media s media marketing calendar)),
      (λ media keywords likely. score_of_few s media keywords (marked.0 likely)),
    )

-- Scoring a message changes nothing but its hints, score, mark and signals, and scoring it again
-- changes nothing at all.
pub score_message_twice :
    (vendors : List (Text × Text)) (body : Option Text) (header : MessageHeader)
    → (score_message vendors body (score_message vendors body header)
        ≡ score_message vendors body header)
      × (but_scored (score_message vendors body header) ≡ but_scored header)
unfolding score_message signals_of extract_vendor score_of notes_of search_from keyword_hits
    extract_amount match_known_vendor
score_message_twice vendors body header = (refl, refl)
