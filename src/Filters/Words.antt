-- ===== src/Filters/Words.antt =====
-- The words that src/ccreport/filters.py searches for.
use ccreport.Prelude.{ℕ, Bool, not, ◌||◌, List, [], ◌∷◌, ◌==◌, keep}
use ccreport.Prelude.Texts.{Text, codes, lower, is_space}
use ccreport.Regex.{
  Regex, seq, alt, all_of, one_of, word, literal, star, one, word_edge, search, not_behind,
  not_ahead, is_word,
}

abbrev pub receipt_keywords : List Text
receipt_keywords =
    codes "receipt"
    ∷ codes "invoice"
    ∷ codes "order confirmation"
    ∷ codes "order"
    ∷ codes "confirmation"
    ∷ codes "payment"
    ∷ codes "purchase"
    ∷ codes "transaction"
    ∷ codes "billed"
    ∷ codes "billing"
    ∷ codes "renewal"
    ∷ codes "subscription"
    ∷ codes "statement"
    ∷ codes "paid"
    ∷ codes "tax invoice"
    ∷ []

-- `(?<!\w)keyword(?!\w)`
abbrev pub keyword_re : Text → Regex
keyword_re keyword = all_of (not_behind is_word ∷ literal keyword ∷ not_ahead is_word ∷ [])

unfoldable pub keyword_hits : Text → List Text
keyword_hits text = keep (λ keyword. search (keyword_re keyword) (lower text)) receipt_keywords

-- a character of `[^\s<>@]`
abbrev pub is_local_part : ℕ → Bool
is_local_part c = not (is_space c || (c == b'<') || (c == b'>') || (c == b'@'))

abbrev pub marketing_re : Regex
marketing_re =
    alt
      (all_of (
        word_edge
        ∷ one_of (word (codes "unsubscribe"))
            (word (codes "view in browser") ∷ word (codes "manage preferences") ∷ [])
        ∷ word_edge
        ∷ []))
      (seq word_edge (
        one_of
          (all_of (word (codes "no-reply@") ∷ star (one is_local_part) ∷ word (codes "news") ∷ []))
          (word (codes "marketing@") ∷ word (codes "newsletter@") ∷ [])))

abbrev pub calendar_re : Regex
calendar_re = seq word_edge (
    one_of (word (codes "invitation:"))
      (word (codes "accepted:") ∷ word (codes "declined:") ∷ word (codes "canceled event") ∷ []))
