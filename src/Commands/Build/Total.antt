-- ===== src/Commands/Build/Total.antt =====
-- reconkg/commands.py: the builders on clean arguments, which give commands and no refusal.
use reconkg.Base.{
  ℕ, Bool, true, false, List, [], ◌∷◌, ◌++◌, if◌then◌else◌, All, All-append, refl, Bool-cases, inl,
  inr,
}
use reconkg.Base.Text.{Text, codes}
use reconkg.Base.Dict.{Dict}
use reconkg.Commands.{
  Category, safe, version, unclassified, never_composed, is_control, make_command,
}
use reconkg.Commands.Validate.{show_number}
use reconkg.Commands.Resolve.{Declared, script_selection_category}
use reconkg.Commands.Build.{
  searchsploit_term, searchsploit_commands, declared_for, nmap_script, nmap_scripts, nmap_commands,
  probe_certificate, http_probe_commands, nuclei_commands,
}
use reconkg.Commands.Build.Sound.{IsSound}
use reconkg.Commands.Build.Clean.{
  literal, Yields, Yields-bind, one-Yields, IsInk, IsClean, make_command-argv, make_command-named,
  feed_argument-IsClean, show_number-IsClean,
}
use reconkg.Commands.Build.Names.{IsName}

searchsploit_term-Yields :
    (term : Text) → IsClean term → Yields (All IsSound) (searchsploit_term term)
unfolding searchsploit_term is_control never_composed
searchsploit_term-Yields [] h = tt
searchsploit_term-Yields (c ∷ term) h =
    one-Yields (make_command _ _ _ _ _)
      (make_command-argv _ safe _ _ refl (literal "searchsploit" refl, (h, tt)))

pub searchsploit_commands-Yields :
    (cve product release : Text) → Yields (All IsSound) (searchsploit_commands cve product release)
unfolding searchsploit_commands is_control never_composed
searchsploit_commands-Yields cve product release =
    Yields-bind IsSound (All IsSound) (make_command _ _ _ _ _) _
      (make_command-argv _ safe _ _ refl
        (literal "searchsploit" refl, (literal "--cve" refl, (feed_argument-IsClean cve 64, tt))))
      (λ c sound.
        Yields-bind (All IsSound) (All IsSound) (searchsploit_term _) _
          (searchsploit_term-Yields _ (feed_argument-IsClean _ 200)) (λ cs sounds. (sound, sounds)))

pub nuclei_commands-Yields :
    (cve target : Text) → IsClean target → Yields (All IsSound) (nuclei_commands cve target)
unfolding nuclei_commands is_control never_composed
nuclei_commands-Yields cve target h = one-Yields (make_command _ _ _ _ _) (
    make_command-argv _ unclassified _ _ refl (
      literal "nuclei" refl,
      (literal "-id" refl, (feed_argument-IsClean cve 64, (literal "-u" refl, (h, tt)))),
    ))

probe_certificate-Yields :
    (tls : Bool) (target address : Text)
    → IsClean target
    → IsClean address
    → Yields (All IsSound) (probe_certificate tls target address)
unfolding probe_certificate is_control never_composed
probe_certificate-Yields false target address h k = tt
probe_certificate-Yields true target address h k = one-Yields (make_command _ _ _ _ _) (
    make_command-argv _ safe _ _ refl (
      literal "openssl" refl,
      (
        literal "s_client" refl,
        (literal "-connect" refl, (k, (literal "-servername" refl, (h, tt)))),
      ),
    ))

scheme-IsClean : (tls : Bool) → IsClean (if tls then codes "https://" else codes "http://")
unfolding is_control
scheme-IsClean true = literal "https://" refl
scheme-IsClean false = literal "http://" refl

pub http_probe_commands-Yields :
    (target : Text) (port : ℕ) (tls : Bool)
    → IsClean target
    → Yields (All IsSound) (http_probe_commands target port tls)
unfolding http_probe_commands is_control never_composed
http_probe_commands-Yields target port tls h =
    let address : IsClean (target ++ b':' ∷ show_number port) =
      All-append IsInk target (b':' ∷ show_number port) h (refl, show_number-IsClean port) in
    Yields-bind IsSound (All IsSound) (make_command _ _ _ _ _) _
      (make_command-argv _ safe _ _ refl (
        literal "curl" refl,
        (
          literal "-sSI" refl,
          (
            literal "--max-time" refl,
            (
              literal "10" refl,
              (
                All-append IsInk (if tls then codes "https://" else codes "http://") _
                    (scheme-IsClean tls)
                    (All-append IsInk (target ++ b':' ∷ show_number port) (codes "/") address
                      (literal "/" refl)),
                tt,
              ),
            ),
          ),
        ),
      ))
      (λ c sound.
        Yields-bind (All IsSound) (All IsSound) (probe_certificate tls target _) _
          (probe_certificate-Yields tls target _ h address) (λ cs sounds. (sound, sounds)))

nmap_script-Yields :
    (target : Text) (port : ℕ) (name : Text) (category : Category)
    → IsClean target
    → IsClean name
    → Yields IsSound (nmap_script target port name category)
unfolding nmap_script is_control
nmap_script-Yields target port name category h k = elim (Bool-cases (never_composed category)) [
  | inl e ↦ rw e (make_command-named _ category _ _ refl)
  | inr e ↦ rw e (
      make_command-argv _ category _ _ e (
        literal "nmap" refl,
        (literal "-p" refl, (show_number-IsClean port, (literal "--script" refl, (k, (h, tt))))),
      ))
]

script_selection_category-Yields :
    (name : Text) (declared : Declared)
    → IsName name
    → Yields (λ _. Unit {0}) (script_selection_category name declared)
unfolding script_selection_category
script_selection_category-Yields name declared n = rw n.again tt

nmap_scripts-Yields :
    (target : Text) (port : ℕ) (lookup : Dict Declared) (scripts : List Text)
    → IsClean target
    → All IsName scripts
    → Yields (All IsSound) (nmap_scripts target port lookup scripts)
unfolding nmap_scripts
nmap_scripts-Yields target port lookup [] h ns = tt
nmap_scripts-Yields target port lookup (script ∷ scripts) h (n, ns) =
    let others : Yields (All IsSound) (nmap_scripts target port lookup scripts) =
      nmap_scripts-Yields target port lookup scripts h ns in
    rw n.again (
      Yields-bind (λ _. Unit {0}) (All IsSound)
        (script_selection_category script (declared_for lookup script)) _
        (script_selection_category-Yields script (declared_for lookup script) n)
        (λ category _.
          Yields-bind IsSound (All IsSound) (nmap_script target port script category) _
            (nmap_script-Yields target port script category h n.clean)
            (λ c sound.
              Yields-bind (All IsSound) (All IsSound) (nmap_scripts target port lookup scripts) _
                others (λ cs sounds. (sound, sounds)))))

pub nmap_commands-Yields :
    (target : Text) (port : ℕ) (scripts : List Text) (lookup : Dict Declared)
    → IsClean target
    → All IsName scripts
    → Yields (All IsSound) (nmap_commands target port scripts lookup)
unfolding nmap_commands is_control never_composed
nmap_commands-Yields target port scripts lookup h ns =
    Yields-bind IsSound (All IsSound) (make_command _ _ _ _ _) _
      (make_command-argv _ version _ _ refl (
        literal "nmap" refl,
        (literal "-sV" refl, (literal "-p" refl, (show_number-IsClean port, (h, tt)))),
      ))
      (λ c sound.
        Yields-bind (All IsSound) (All IsSound) (nmap_scripts target port lookup scripts) _
          (nmap_scripts-Yields target port lookup scripts h ns) (λ cs sounds. (sound, sounds)))
