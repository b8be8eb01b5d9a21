-- ===== src/Srcmap/Texts/Split.antt =====
-- Splitting the texts that are joined with a separator.
use inspethct.Base.{ℕ, ◌≡◌, refl, ap, ◌∙◌, false, List, [], ◌∷◌, ◌++◌, ◌==◌, ==_refl, All}
use inspethct.Base.Text.{Text}
use inspethct.Srcmap.Texts.{split}

abbrev pub join : ℕ → Text → List Text → Text
join sep p [] = p
join sep p (q ∷ qs) = p ++ sep ∷ join sep q qs

-- The text has no separator.
abbrev pub IsFree : ℕ → Text → Type 0
IsFree sep p = All (λ c. (c == sep) ≡ false) p

split_free : (sep : ℕ) (p : Text) → IsFree sep p → split sep p ≡ p ∷ []
unfolding split
split_free sep [] h = refl
split_free sep (c ∷ cs) h = rw (h.0, split_free sep cs h.1) refl

split-append :
    (sep : ℕ) (p rest : Text) → IsFree sep p → split sep (p ++ sep ∷ rest) ≡ p ∷ split sep rest
unfolding split
split-append sep [] rest h = rw (==_refl sep) refl
split-append sep (c ∷ cs) rest h = rw (h.0, split-append sep cs rest h.1) refl

pub split-join :
    (sep : ℕ) (p : Text) (ps : List Text)
    → IsFree sep p
    → All (IsFree sep) ps
    → split sep (join sep p ps) ≡ p ∷ ps
split-join sep p [] h hs = split_free sep p h
split-join sep p (q ∷ qs) h hs =
    split-append sep p (join sep q qs) h ∙ ap (λ r. p ∷ r) (split-join sep q qs hs.0 hs.1)

pub IsFree-append : (sep : ℕ) (p q : Text) → IsFree sep p → IsFree sep q → IsFree sep (p ++ q)
IsFree-append sep [] q h k = k
IsFree-append sep (c ∷ cs) q h k = (h.0, IsFree-append sep cs q h.1 k)

pub IsFree-join :
    (sep other : ℕ) (p : Text) (ps : List Text)
    → (other == sep) ≡ false
    → IsFree sep p
    → All (IsFree sep) ps
    → IsFree sep (join other p ps)
IsFree-join sep other p [] o h hs = h
IsFree-join sep other p (q ∷ qs) o h hs =
    IsFree-append sep p (other ∷ join other q qs) h (o, IsFree-join sep other q qs o hs.0 hs.1)
