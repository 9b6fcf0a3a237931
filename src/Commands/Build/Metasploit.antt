-- ===== src/Commands/Build/Metasploit.antt =====
-- reconkg/commands.py: the `-x` text that `metasploit_commands` composes, as msfconsole splits it.
use reconkg.Base.{
  ℕ, Bool, false, ◌||◌, Option, none, some, List, [], ◌∷◌, ◌++◌, any, All, ◌≡◌, refl, ◌∙◌, ap,
  arith, Bool-cases, inl, inr,
}
use reconkg.Base.Text.{Text, codes, strip, lstrip, join}
use reconkg.Commands.{Category, Tag, Command, Result, ok, err, never_composed, coerce_category}
use reconkg.Commands.Validate.{validate_module_path}
use reconkg.Commands.Build.Sound.{IsSound, Ensures, Ensures-bind, Ensures-any, make_command_inv}
use reconkg.Commands.Build.{
  is_separator, split_statements, verb_of, is_firing_statement, fires, refuse_firing_verbs,
  setup_steps, one, metasploit_named, metasploit_composed, metasploit_commands,
}

abbrev space : ℕ
space = 32

abbrev semicolon : ℕ
semicolon = b';'

-- A space in front of a statement changes nothing.
strip-space : (s : Text) → strip (space ∷ s) ≡ strip s
unfolding strip lstrip
strip-space s = refl

firing_space : (s : Text) → is_firing_statement (space ∷ s) ≡ is_firing_statement s
firing_space s = unfold is_firing_statement verb_of in rw strip-space

split_space :
    (cur s : Text)
    → any is_firing_statement (split_statements (space ∷ cur) s)
      ≡ any is_firing_statement (split_statements cur s)
unfolding split_statements
split_space cur [] = rw firing_space
split_space cur (c ∷ s) = elim (Bool-cases (is_separator c)) [
  | inl e ↦ rw (e, firing_space)
  | inr e ↦ rw e (split_space (cur ++ c ∷ []) s)
]

split_semicolon :
    (cur s t : Text)
    → split_statements cur (s ++ semicolon ∷ t) ≡ split_statements cur s ++ split_statements [] t
unfolding split_statements
split_semicolon cur [] t = unfold is_separator in refl
split_semicolon cur (c ∷ s) t = elim (Bool-cases (is_separator c)) [
  | inl e ↦ rw e (ap (λ l. cur ∷ l) (split_semicolon [] s t))
  | inr e ↦ rw e (split_semicolon (cur ++ c ∷ []) s t)
]

any-append {ℓ} :
    {A : Type ℓ} (p : A → Bool) (xs ys : List A) → any p (xs ++ ys) ≡ any p xs || any p ys
any-append p [] ys = refl
any-append p (x ∷ xs) ys = ground (arith, any-append p xs ys)

split_first_space : (s : Text) → split_statements [] (space ∷ s) ≡ split_statements (space ∷ []) s
unfolding split_statements is_separator
split_first_space s = refl

-- The joined text fires exactly when one of the steps does.
pub fires-join :
    (step : Text) (steps : List Text)
    → fires (join (codes "; ") (step ∷ steps)) ≡ any fires (step ∷ steps)
unfolding fires join
fires-join step [] = ground arith
fires-join step (next ∷ steps) =
    rw
      (
        split_semicolon [] step (space ∷ join (codes "; ") (next ∷ steps)),
        split_first_space,
        any-append,
      )
      (ap (λ b. any is_firing_statement (split_statements [] step) || b)
        (split_space [] (join (codes "; ") (next ∷ steps)) ∙ fires-join next steps))

refuse_firing_verbs_inv :
    (setup kept : List Text)
    → refuse_firing_verbs setup ≡ ok kept
    → (setup ≡ kept) × (any fires setup ≡ false)
unfolding refuse_firing_verbs
refuse_firing_verbs_inv setup kept h = ground arith

-- What is kept on from the checked steps fires nothing once it is joined.
pub kept_quiet :
    (step : Text) (steps kept : List Text)
    → refuse_firing_verbs (step ∷ steps) ≡ ok kept
    → fires (join (codes "; ") kept) ≡ false
kept_quiet step steps kept h =
    let (same, quiet) = refuse_firing_verbs_inv (step ∷ steps) kept h in
    rw (← same, fires-join step steps) quiet

-- The command shows a module and composes nothing, or runs msfconsole quietly on one script.
pub data IsQuiet (c : Command) : Type 0 where
  shown : c.argv ≡ none → IsQuiet c
  quiet :
      (script : Text)
      → c.argv ≡ some (codes "msfconsole" ∷ codes "-q" ∷ codes "-x" ∷ script ∷ [])
      → fires script ≡ false
      → IsQuiet c

one-Ensures : (P : Command → Type 0) (m : Result Command) → Ensures P m → Ensures (All P) (one m)
one-Ensures P (ok c) h = (h, tt)
one-Ensures P (err e) h = tt

of_inv :
    (P : Command → Type 0) (m : Result Command) → ((c : Command) → m ≡ ok c → P c) → Ensures P m
of_inv P (ok c) h = h c refl
of_inv P (err e) h = tt

abbrev pub IsSafe : Command → Type 0
IsSafe c = IsSound c × IsQuiet c

metasploit_named-IsSafe :
    (name source : Text) (category : Category)
    → Ensures (All IsSafe) (metasploit_named name category source)
unfolding metasploit_named
metasploit_named-IsSafe name source category = one-Ensures IsSafe _ (
    of_inv IsSafe _
      (λ c h. let (sound, _, argv) = make_command_inv _ _ _ _ _ c h in (sound, shown argv)))

metasploit_composed-IsSafe :
    (name target source : Text) (port : Option ℕ) (category : Category)
    → Ensures (All IsSafe) (metasploit_composed name target port category source)
unfolding metasploit_composed setup_steps
metasploit_composed-IsSafe name target source port category =
    Ensures-bind (λ _. Unit {0}) (All IsSafe) (refuse_firing_verbs _) _ (Ensures-any _)
      (λ setup kept _. one-Ensures IsSafe _ (
        of_inv IsSafe _ (λ c h.
          let (sound, _, argv) = make_command_inv _ _ _ _ _ c h in
          (sound, quiet (join (codes "; ") setup) argv (kept_quiet _ _ setup kept)))))

-- Whatever the module path, the target, the port and the declared category, each command that
-- `metasploit_commands` returns keeps the boundary, and either has no arguments or is `msfconsole -q -x`
-- on one text of which no statement, as msfconsole splits it, starts with a verb that runs the module.
pub metasploit_commands-IsSafe :
    (path target : Text) (port : Option ℕ) (tag : Tag) (source : Text)
    → Ensures (All IsSafe) (metasploit_commands path target port tag source)
unfolding metasploit_commands
metasploit_commands-IsSafe path target port tag source =
    Ensures-bind (λ _. Unit {0}) (All IsSafe) (coerce_category tag) _ (Ensures-any _)
      (λ category _ _.
        Ensures-bind (λ _. Unit {0}) (All IsSafe) (validate_module_path path) _ (Ensures-any _)
          (λ name _ _. elim (Bool-cases (never_composed category)) [
            | inl e ↦ rw e (metasploit_named-IsSafe name source category)
            | inr e ↦ rw e (metasploit_composed-IsSafe name target source port category)
          ]))
