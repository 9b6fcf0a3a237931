-- ===== src/Catalog/Oneliner.antt =====
-- reconkg/catalog.py: the lines that a record is printed as. `shlex.quote` is the parameter `quote`; the values
-- of further options are texts.
use reconkg.Base.{
  ℕ, true, false, ◌||◌, not, Option, none, some, List, [], ◌∷◌, ◌++◌, if◌then◌else◌, is_empty, drop,
  ◌≡◌, refl, arith, Bool-cases, inl, inr,
}
use reconkg.Base.Text.{Text, codes, starts_with, join}
use reconkg.Commands.{Result, ok, err}
use reconkg.Commands.Validate.{validate_module_path}
use reconkg.Commands.Build.{fires, refuse_firing_verbs, rport}
use reconkg.Commands.Build.Metasploit.{kept_quiet}
use reconkg.Catalog.{ExploitRecord, is_from}

-- `identifier.removeprefix('EDB-')`.
unfoldable pub without_edb : Text → Text
without_edb identifier =
    if starts_with (codes "EDB-") identifier then drop 4 identifier else identifier

unfoldable pub url : ExploitRecord → Text
url r =
    if is_from (codes "exploit-db") r
    then codes "https://www.exploit-db.com/exploits/" ++ without_edb r.identifier
    else codes "https://www.rapid7.com/db/modules/" ++ r.identifier

unfoldable pub extra_steps : List (Text × Text) → List Text
extra_steps [] = codes "show options" ∷ []
extra_steps ((key, value) ∷ extra) = (codes "set " ++ (key ++ b' ' ∷ value)) ∷ extra_steps extra

unfoldable pub later_parts : (rhost : Text) → Option ℕ → List (Text × Text) → List Text
later_parts rhost port extra = (codes "set RHOSTS " ++ rhost) ∷ (rport port ++ extra_steps extra)

module _ (quote : Text → Text) where
  unfoldable pub lookup_command : ExploitRecord → Text
  lookup_command r =
      if is_from (codes "exploit-db") r
      then codes "searchsploit -x " ++ quote (without_edb r.identifier)
      else codes "msfconsole -q -x " ++ quote (codes "info " ++ (r.identifier ++ codes "; exit"))

  -- The line, where the check of its parts lets them through.
  unfoldable pub quoted_parts : Result (List Text) → Option Text
  quoted_parts (err e) = none
  quoted_parts (ok parts) = some (codes "msfconsole -q -x " ++ quote (join (codes "; ") parts))

  unfoldable pub line_for :
      (rhost : Text) → Option ℕ → List (Text × Text) → Result Text → Option Text
  line_for rhost port extra (err e) = none
  line_for rhost port extra (ok name) =
      quoted_parts (refuse_firing_verbs ((codes "use " ++ name) ∷ later_parts rhost port extra))

  unfoldable pub msf_oneliner :
      ExploitRecord → (rhost : Text) → Option ℕ → (extra : List (Text × Text)) → Option Text
  msf_oneliner r rhost port extra =
      if not (is_from (codes "metasploit") r) || is_empty r.identifier
      then none
      else line_for rhost port extra (validate_module_path r.identifier)

  quoted_parts_inv :
      (step : Text) (steps : List Text) (o : Result (List Text)) (line : Text)
      → refuse_firing_verbs (step ∷ steps) ≡ o
      → quoted_parts o ≡ some line
      → (script : Text) × (line ≡ codes "msfconsole -q -x " ++ quote script)
        × (fires script ≡ false)
  unfolding quoted_parts
  quoted_parts_inv step steps (err e) line r h = cc
  quoted_parts_inv step steps (ok parts) line r h =
      (join (codes "; ") parts, ground (arith, h), kept_quiet step steps parts r)

  line_for_inv :
      (rhost : Text) (port : Option ℕ) (extra : List (Text × Text)) (o : Result Text) (line : Text)
      → line_for rhost port extra o ≡ some line
      → (script : Text) × (line ≡ codes "msfconsole -q -x " ++ quote script)
        × (fires script ≡ false)
  unfolding line_for
  line_for_inv rhost port extra (err e) line h = cc
  line_for_inv rhost port extra (ok name) line h =
      quoted_parts_inv (codes "use " ++ name) (later_parts rhost port extra)
        (refuse_firing_verbs ((codes "use " ++ name) ∷ later_parts rhost port extra)) line refl h

  -- A line that is composed for a record is for a module of Metasploit, and the script that it quotes has no
  -- statement that fires, the way msfconsole splits it, whatever the identifier, the target and the options
  -- hold.
  pub msf_oneliner-fires :
      (r : ExploitRecord) (rhost : Text) (port : Option ℕ) (extra : List (Text × Text))
      (line : Text)
      → msf_oneliner r rhost port extra ≡ some line
      → (is_from (codes "metasploit") r ≡ true)
        × ((script : Text) × (line ≡ codes "msfconsole -q -x " ++ quote script)
            × (fires script ≡ false))
  unfolding msf_oneliner
  msf_oneliner-fires r rhost port extra line h =
      elim (Bool-cases (not (is_from (codes "metasploit") r) || is_empty r.identifier)) [
        | inl e ↦ absurd (ground (arith, h, e))
        | inr e ↦ (
          ground (arith, e),
          line_for_inv rhost port extra (validate_module_path r.identifier) line
              (ground (arith, h, e)),
        )
      ]
