-- ===== src/Param/Places.antt =====
-- The places in a name at which the loops over it act.
use tr.Base.{
  ℕ, suc, ◌+◌, ◌-◌, ◌%◌, ◌<◌, ◌≡◌, ◌≢◌, sym, ap, ◌∙◌, inl, inr, List, [], ◌∷◌, ◌++◌, arith, length,
  get_or, ◌==◌, Bool-cases, ==_false, All, take-of_le,
}
use tr.Platform.{Bytes}
use tr.Param.{dots_of, dots_from, stops_of, stops_from}

-- The dots of a name that does not end with one.
abbrev pub Inner : Bytes → List ℕ → Type 0
Inner name = All (λ i. (get_or name i 0 ≡ b'.') × (i + 1 < length name))

-- The places at which a search of the name stops.
abbrev pub search : Bytes → List ℕ → List ℕ
search name dots = dots ++ ((length name - 1) ∷ [])

-- The last byte is no dot.
abbrev EndsPlain : Bytes → Type 0
EndsPlain [] = Unit {0}
EndsPlain (c ∷ []) = c ≢ b'.'
EndsPlain (c ∷ c' ∷ cs) = EndsPlain (c' ∷ cs)

EndsPlain-of : (cs : Bytes) → get_or cs (length cs - 1) 0 ≢ b'.' → EndsPlain cs
EndsPlain-of [] l = tt
EndsPlain-of (c ∷ []) l = l
EndsPlain-of (c ∷ c' ∷ cs) l =
    EndsPlain-of (c' ∷ cs) (λ e.
      l (ap (λ k. get_or (c ∷ c' ∷ cs) k 0) {y = suc (length (c' ∷ cs) - 1)} (omega arith) ∙ e))

stops_from-cons :
    (n i c : ℕ) (cs : Bytes) (r : List ℕ)
    → i + 1 ≢ n
    → stops_from n (i + 1) cs ≡ dots_from (i + 1) cs ++ r
    → stops_from n i (c ∷ cs) ≡ dots_from i (c ∷ cs) ++ r
unfolding stops_from dots_from
stops_from-cons n i c cs r h e = elim (Bool-cases (c == b'.')) [
  | inl dot ↦ rw dot (ap (λ t. i ∷ t) e)
  | inr other ↦ rw (other, ==_false (i + 1) n h) e
]

stops_from-search :
    (n i : ℕ) (cs : Bytes)
    → i + length cs ≡ n
    → 0 < length cs
    → EndsPlain cs
    → stops_from n i cs ≡ dots_from i cs ++ ((n - 1) ∷ [])
stops_from-search n i [] e h l = absurd (omega arith)
stops_from-search n i (c ∷ []) e h l = unfold stops_from in unfold dots_from in ground arith
stops_from-search n i (c ∷ c' ∷ cs) e h l =
    stops_from-cons n i c (c' ∷ cs) ((n - 1) ∷ []) (omega arith)
      (stops_from-search n (i + 1) (c' ∷ cs) (omega arith) (omega arith) l)

dots_from-cons :
    (name : Bytes) (i c : ℕ) (cs : Bytes)
    → get_or name i 0 ≡ c
    → i + 1 < length name
    → Inner name (dots_from (i + 1) cs)
    → Inner name (dots_from i (c ∷ cs))
unfolding dots_from
dots_from-cons name i c cs g h rest = elim (Bool-cases (c == b'.')) [
  | inl dot ↦ rw dot ((g ∙ ground (arith, dot), h), rest)
  | inr other ↦ rw other rest
]

dots_from-Inner :
    (name : Bytes) (i : ℕ) (cs : Bytes)
    → i + length cs ≡ length name
    → ((k : ℕ) → get_or cs k 0 ≡ get_or name (i + k) 0)
    → EndsPlain cs
    → Inner name (dots_from i cs)
dots_from-Inner name i [] e g l = unfold dots_from in tt
dots_from-Inner name i (c ∷ []) e g l = unfold dots_from in rw (==_false c b'.' l) tt
dots_from-Inner name i (c ∷ c' ∷ cs) e g l =
    dots_from-cons name i c (c' ∷ cs)
      (ap (λ j. get_or name j 0) {y = i + 0} (omega arith) ∙ sym (g 0)) (omega arith)
      (dots_from-Inner name (i + 1) (c' ∷ cs) (omega arith)
        (λ k. g (suc k) ∙ ap (λ j. get_or name j 0) {y = i + 1 + k} (omega arith)) l)

-- What the model computes from a name that is a string of moderate length without a dot at its end.
pub stops_of-search :
    (name : Bytes)
    → length name < 65536
    → 0 < length name
    → get_or name (length name - 1) 0 ≢ b'.'
    → stops_of name ≡ search name (dots_of name)
stops_of-search name h p l =
    rw (short, take-of_le (length name) name (omega arith))
      (stops_from-search (length name) 0 name (omega arith) p (EndsPlain-of name l))
  where
    short : length name % 65536 ≡ length name
    short = omega arith

pub dots_of-Inner :
    (name : Bytes)
    → length name < 65536
    → get_or name (length name - 1) 0 ≢ b'.'
    → Inner name (dots_of name)
dots_of-Inner name h l =
    rw (short, take-of_le (length name) name (omega arith))
      (dots_from-Inner name 0 name (omega arith) (λ k. ap (λ j. get_or name j 0) (omega arith))
        (EndsPlain-of name l))
  where
    short : length name % 65536 ≡ length name
    short = omega arith
