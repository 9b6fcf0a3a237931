-- ===== src/Commands/Build/Scripts.antt =====
-- reconkg/commands.py: `nmap_commands` answers its scripts one by one.
use reconkg.Base.{
  ℕ, Bool, ◌||◌, Option, none, some, List, [], ◌∷◌, any, All, ◌≡◌, sym, arith, Bool-cases, inl, inr,
  if◌then◌else◌, subst,
}
use reconkg.Base.Text.{Text, codes, lower}
use reconkg.Base.Dict.{Dict}
use reconkg.Commands.{
  Category, member, version, Command, ok, never_composed, make_command, coerce_category,
}
use reconkg.Commands.Validate.{script_text, validate_script_name, show_number}
use reconkg.Commands.Resolve.{Declared, script_selection_category, normalise_categories}
use reconkg.Commands.Resolve.Worst.{is_firing_tag, selects_firing, script_selection_category-firing}
use reconkg.Commands.Build.{nmap_script, nmap_scripts, nmap_commands, declared_for}
use reconkg.Commands.Build.Sound.{IsSound, make_command_inv, bind_inv}

-- A script is a firing one: a category that its lookup declares is, or the name selects firing scripts.
abbrev pub is_firing_script : Dict Declared → Text → Bool
is_firing_script lookup name =
    any is_firing_tag (normalise_categories (declared_for lookup name))
    || selects_firing (lower (script_text name))

abbrev pub script_argv : (target : Text) (port : ℕ) (name : Text) → Option (List Text)
script_argv target port name =
    some (codes "nmap" ∷ codes "-p" ∷ show_number port ∷ codes "--script" ∷ name ∷ target ∷ [])

-- What answers a script: a command of its category, with arguments unless the script is a firing one.
abbrev pub IsAnswer : Text → ℕ → Dict Declared → Text → Command → Type 0
IsAnswer target port lookup script c =
    (name : Text) × (validate_script_name script ≡ ok name)
    × (script_selection_category name (declared_for lookup name) ≡ ok c.category)
    × (c.argv ≡ (if is_firing_script lookup name then none else script_argv target port name))

abbrev pub AreAnswers : Text → ℕ → Dict Declared → List Text → List Command → Type 0
AreAnswers target port lookup [] [] = Unit
AreAnswers target port lookup (script ∷ scripts) (c ∷ cs) =
    IsAnswer target port lookup script c × AreAnswers target port lookup scripts cs
AreAnswers target port lookup _ _ = ⊥

-- The detection of versions, and behind it an answer to each script.
abbrev pub IsScan : Text → ℕ → Dict Declared → List Text → List Command → Type 0
IsScan target port lookup scripts [] = ⊥
IsScan target port lookup scripts (c ∷ cs) =
    (c.category ≡ version)
    × (c.argv ≡ some (codes "nmap" ∷ codes "-sV" ∷ codes "-p" ∷ show_number port ∷ target ∷ []))
    × AreAnswers target port lookup scripts cs

category_of_member : (m c : Category) → coerce_category (member m) ≡ ok c → m ≡ c
unfolding coerce_category
category_of_member m c h = ground (arith, h)

nmap_script_inv :
    (target : Text) (port : ℕ) (name : Text) (category : Category) (c : Command)
    → nmap_script target port name category ≡ ok c
    → IsSound c
      × (category ≡ c.category)
      × (c.argv ≡ (if never_composed category then none else script_argv target port name))
unfolding nmap_script
nmap_script_inv target port name category c h = elim (Bool-cases (never_composed category)) [
  | inl e ↦
      let (sound, f, a) = make_command_inv _ _ _ _ _ c (rw e at h) in
      (sound, category_of_member category c.category f, rw e a)
  | inr e ↦
      let (sound, f, a) = make_command_inv _ _ _ _ _ c (rw e at h) in
      (sound, category_of_member category c.category f, rw e a)
]

nmap_scripts_inv :
    (target : Text) (port : ℕ) (lookup : Dict Declared) (scripts : List Text) (cs : List Command)
    → nmap_scripts target port lookup scripts ≡ ok cs
    → All IsSound cs × AreAnswers target port lookup scripts cs
unfolding nmap_scripts
nmap_scripts_inv target port lookup [] [] h = (tt, tt)
nmap_scripts_inv target port lookup [] (c ∷ cs) h = cc
nmap_scripts_inv target port lookup (script ∷ scripts) out h =
    let (name, valid, h1) = bind_inv (validate_script_name script) _ h in
    let (category, found, h2) =
      bind_inv (script_selection_category name (declared_for lookup name)) _ h1 in
    let (c, made, h3) = bind_inv (nmap_script target port name category) _ h2 in
    let (cs, rest, same) = bind_inv (nmap_scripts target port lookup scripts) _ h3 in
    let (sound, own, argv) = nmap_script_inv target port name category c made in
    let (sounds, answers) = nmap_scripts_inv target port lookup scripts cs rest in
    let firing : never_composed category ≡ is_firing_script lookup name =
      script_selection_category-firing name (declared_for lookup name) category found in
    let e : c ∷ cs ≡ out = cc same in
    subst (λ o. All IsSound o × AreAnswers target port lookup (script ∷ scripts) o) e
      ((sound, sounds), ((name, valid, rw (← own) found, rw (← firing) argv), answers))

-- When `nmap_commands` returns, its first command detects versions at the port of the target, and behind it
-- each script has one command, in order: of the category of the script's selection, and without arguments
-- exactly when a category that the lookup declares for the script is a firing one or its name selects firing
-- scripts, else with the script, the port and the target. Each command keeps the boundary.
pub nmap_commands_inv :
    (target : Text) (port : ℕ) (scripts : List Text) (lookup : Dict Declared) (out : List Command)
    → nmap_commands target port scripts lookup ≡ ok out
    → All IsSound out × IsScan target port lookup scripts out
unfolding nmap_commands
nmap_commands_inv target port scripts lookup out h =
    let (detect, made, h1) = bind_inv (make_command _ _ _ _ _) _ h in
    let (cs, rest, same) = bind_inv (nmap_scripts target port lookup scripts) _ h1 in
    let (sound, f, argv) = make_command_inv _ _ _ _ _ detect made in
    let (sounds, answers) = nmap_scripts_inv target port lookup scripts cs rest in
    let e : detect ∷ cs ≡ out = cc same in
    subst (λ o. All IsSound o × IsScan target port lookup scripts o) e
      ((sound, sounds), (sym (category_of_member version detect.category f), argv, answers))
