-- ===== src/Commands/Resolve/Worst.antt =====
-- reconkg/commands.py: `_worst_category` against the tags that it is given.
use reconkg.Base.{
  Bool, true, false, not, ◌&&◌, ◌||◌, none, some, List, [], ◌∷◌, ◌++◌, map, any, ◌≡◌, refl, sym,
  ◌∙◌, ap, arith, Bool-cases, Option-cases, inl, inr,
}
use reconkg.Base.Text.{Text, codes, text_eq, lower, strip, is_space}
use reconkg.Commands.{
  Category, auth, broadcast, brute, default, discovery, dos, exploit, external, fuzzer, intrusive,
  malware, safe, version, vuln, unclassified, value, category_of, never_composed, default_category,
  ok,
}
use reconkg.Commands.Validate.{validate_script_name, script_text}
use reconkg.Commands.Resolve.{
  Declared, normalise_categories, seen_category, is_seen, worst_safety, worst_seen, worst_category,
  own_tokens, script_selection_category,
}

-- A category is never composed exactly when it is one of the four.
is_firing : List Category → Bool
is_firing seen =
    is_seen exploit seen || (is_seen dos seen || (is_seen fuzzer seen || is_seen brute seen))

never_composed-worst_safety : (seen : List Category) → never_composed (worst_safety seen) ≡ false
unfolding never_composed worst_safety
never_composed-worst_safety seen = ground arith

never_composed-worst_seen :
    (seen : List Category) → never_composed (worst_seen seen) ≡ is_firing seen
unfolding worst_seen is_firing never_composed
never_composed-worst_seen seen = ground (arith, never_composed-worst_safety seen)

is_firing-cons :
    (c : Category) (seen : List Category)
    → is_firing (c ∷ seen) ≡ never_composed c || is_firing seen
unfolding is_firing is_seen value never_composed
is_firing-cons auth seen = ground arith
is_firing-cons _ seen = ground arith

is_firing-any : (seen : List Category) → is_firing seen ≡ any never_composed seen
is_firing-any [] = unfold is_firing is_seen in refl
is_firing-any (c ∷ seen) = rw (is_firing-cons, is_firing-any seen)

any-map :
    {A B : Type 0} (p : B → Bool) (f : A → B) (xs : List A)
    → any p (map f xs) ≡ any (λ x. p (f x)) xs
any-map p f [] = refl
any-map p f (x ∷ xs) = rw (any-map p f xs)

any-append : {A : Type 0} (p : A → Bool) (xs ys : List A) → any p (xs ++ ys) ≡ any p xs || any p ys
any-append p [] ys = refl
any-append p (x ∷ xs) ys = ground (arith, any-append p xs ys)

abbrev pub is_firing_tag : Text → Bool
is_firing_tag t = never_composed (seen_category t)

-- Declared tags amount to a category that is never composed exactly when one of them is one.
pub never_composed-worst_category :
    (tags : List Text) → never_composed (worst_category tags) ≡ any is_firing_tag tags
never_composed-worst_category [] = unfold worst_category never_composed in refl
never_composed-worst_category (t ∷ ts) =
    unfold worst_category in
    (never_composed-worst_seen (map seen_category (t ∷ ts))
      ∙ is_firing-any (map seen_category (t ∷ ts))
      ∙ any-map never_composed seen_category (t ∷ ts))

-- What a category other than the three harmless ones and the plain topics is.
unfoldable pub harsh : Category → Bool
harsh auth = false
harsh default = false
harsh discovery = false
harsh malware = false
harsh safe = false
harsh version = false
harsh _ = true

has_harsh : List Category → Bool
has_harsh seen =
    is_firing seen
    || (is_seen vuln seen
        || (is_seen broadcast seen
            || (is_seen external seen || (is_seen unclassified seen || is_seen intrusive seen))))

has_harsh-cons :
    (c : Category) (seen : List Category) → has_harsh (c ∷ seen) ≡ harsh c || has_harsh seen
unfolding has_harsh is_firing is_seen value harsh
has_harsh-cons auth seen = ground arith
has_harsh-cons _ seen = ground arith

has_harsh-any : (seen : List Category) → has_harsh seen ≡ any harsh seen
has_harsh-any [] = unfold has_harsh is_firing is_seen in refl
has_harsh-any (c ∷ seen) = rw (has_harsh-cons, has_harsh-any seen)

default_category-worst_seen :
    (seen : List Category)
    → default_category (worst_seen seen)
      ≡ not (has_harsh seen) && (is_seen version seen || is_seen safe seen)
unfolding worst_seen worst_safety has_harsh is_firing default_category
default_category-worst_seen seen = ground arith

-- Declared tags are shown without opting in exactly when one of them says safe or version, and none
-- is unknown, intrusive, firing, a test for a flaw, or outside the scope.
pub default_category-worst_category :
    (tags : List Text)
    → default_category (worst_category tags)
      ≡ not (any (λ t. harsh (seen_category t)) tags)
        && (is_seen version (map seen_category tags) || is_seen safe (map seen_category tags))
default_category-worst_category [] = unfold worst_category default_category is_seen in refl
default_category-worst_category (t ∷ ts) =
    let seen : List Category = map seen_category (t ∷ ts) in
    unfold worst_category in
    (default_category-worst_seen seen
      ∙ ap (λ b. not b && (is_seen version seen || is_seen safe seen))
          (has_harsh-any seen ∙ any-map harsh seen_category (t ∷ ts)))

seen_category-value : (c : Category) → seen_category (value c) ≡ c
unfolding seen_category value category_of lower strip is_space
seen_category-value auth = refl
seen_category-value _ = refl

-- What `--script` takes a bare name for: every script, or all of a category.
unfoldable pub selects_firing : Text → Bool
selects_firing name =
    text_eq name (codes "all")
    || elim (category_of name) [ none ↦ false | some c ↦ never_composed c ]

firing-own_tokens : (name : Text) → any is_firing_tag (own_tokens name) ≡ selects_firing name
firing-own_tokens name = elim (Bool-cases (text_eq name (codes "all"))) [
  | inl e ↦
      unfold own_tokens selects_firing in
      rw (e, seen_category-value exploit) (unfold never_composed in refl)
  | inr e ↦ elim (Option-cases (category_of name)) [
    | inl n ↦ unfold own_tokens selects_firing in rw (e, n)
    | inr (c, n) ↦
        unfold own_tokens selects_firing in
        rw (e, n, seen_category-value c) (or_false (never_composed c))
  ]
]
  where
    or_false : (b : Bool) → b || false ≡ b
    or_false b = ground arith

script_selection_category_inv :
    (script : Text) (declared : Declared) (c : Category)
    → script_selection_category script declared ≡ ok c
    → worst_category (normalise_categories declared ++ own_tokens (lower (script_text script))) ≡ c
unfolding script_selection_category validate_script_name
script_selection_category_inv script declared c h = ground arith

-- The category of a script selection is never composed exactly when a declared tag is a firing one,
-- or the name itself selects a firing category or every script.
pub script_selection_category-firing :
    (script : Text) (declared : Declared) (c : Category)
    → script_selection_category script declared ≡ ok c
    → never_composed c
      ≡ any is_firing_tag (normalise_categories declared)
        || selects_firing (lower (script_text script))
script_selection_category-firing script declared c h =
    ap never_composed (sym (script_selection_category_inv script declared c h))
    ∙ never_composed-worst_category
        (normalise_categories declared ++ own_tokens (lower (script_text script)))
    ∙ any-append is_firing_tag (normalise_categories declared)
        (own_tokens (lower (script_text script)))
    ∙ ap (λ b. any is_firing_tag (normalise_categories declared) || b)
        (firing-own_tokens (lower (script_text script)))
