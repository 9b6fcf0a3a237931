-- ===== src/Handoff/Total.antt =====
-- reconkg/handoff.py: `build_commands` on whatever the indices hold.
use reconkg.Base.{
  ℕ, Bool, Option, none, some, List, [], ◌∷◌, map, ltb, take, All, All-append, ◌≡◌, Bool-cases, inl,
  inr,
}
use reconkg.Base.Text.{Text, codes, contains, lower}
use reconkg.Commands.{Category, safe, Tag, Command, Result, ok, err, make_command}
use reconkg.Commands.Validate.{validate_edb_id, show_number}
use reconkg.Commands.Build.{
  searchsploit_commands, searchsploit_examine_commands, nmap_commands, http_probe_commands,
  nuclei_commands, metasploit_commands,
}
use reconkg.Commands.Build.Sound.{
  IsSound, Ensures, Ensures-bind, Ensures-any, make_command-IsSound, one-IsSound,
}
use reconkg.Commands.Build.Metasploit.{IsSafe, metasploit_commands-IsSafe}
use reconkg.Commands.Build.Clean.{
  Yields, Yields-bind, Yields-ok, one-Yields, IsClean, make_command-named, show_number-filled,
}
use reconkg.Commands.Build.Total.{
  searchsploit_commands-Yields, nuclei_commands-Yields, http_probe_commands-Yields,
  nmap_commands-Yields,
}
use reconkg.Commands.Policy.{Held, held, permitted_by}
use reconkg.Commands.Policy.Filter.{
  Selects, select_total, map-held-Keeps, assert_Keeps-ok, filter_commands_iff,
}
use reconkg.Handoff.{
  LedgerRow, ModuleRecord, Indices, max_exploit_commands, more_scripts, http_commands, web_commands,
  or_dropped, is_module, module_commands, catalog_commands, examine_all, more_exploits,
  indexed_exploits, exploit_commands, gather_commands, build_commands,
}
use reconkg.Handoff.Selected.{filled-append, more_scripts-Yields, nse_selection-IsName}

http_commands-Yields :
    (row : LedgerRow) (service : Text)
    → IsClean row.target
    → Yields (All IsSound) (http_commands row service)
unfolding http_commands
http_commands-Yields row service h =
    Yields-bind (All IsSound) (All IsSound) (http_probe_commands row.target row.port _) _
      (http_probe_commands-Yields row.target row.port _ h)
      (λ probes sound.
        Yields-bind (All IsSound) (All IsSound) (nuclei_commands row.cve_id row.target) _
          (nuclei_commands-Yields row.cve_id row.target h)
          (λ templates sounds. All-append IsSound probes templates sound sounds))

web_commands-Yields :
    (row : LedgerRow) → IsClean row.target → Yields (All IsSound) (web_commands row)
unfolding web_commands
web_commands-Yields row h = elim (Bool-cases (contains (codes "http") (lower row.service))) [
  | inl e ↦ rw e (http_commands-Yields row (lower row.service) h)
  | inr e ↦ rw e tt
]

or_dropped-IsSound :
    (m : Result (List Command)) → Ensures (All IsSound) m → All IsSound (or_dropped m)
unfolding or_dropped
or_dropped-IsSound (ok cs) h = h
or_dropped-IsSound (err e) h = tt

Ensures-map :
    {A : Type 0} (P Q : A → Type 0) (m : Result A)
    → ((a : A) → P a → Q a)
    → Ensures P m
    → Ensures Q m
Ensures-map P Q (ok a) f h = f a h
Ensures-map P Q (err e) f h = tt

All-IsSound_of_IsSafe : (cs : List Command) → All IsSafe cs → All IsSound cs
All-IsSound_of_IsSafe [] h = tt
All-IsSound_of_IsSafe (c ∷ cs) (p, h) = (p.0, All-IsSound_of_IsSafe cs h)

module_commands-IsSound :
    (row : LedgerRow) (records : List ModuleRecord) → All IsSound (module_commands row records)
unfolding module_commands
module_commands-IsSound row [] = tt
module_commands-IsSound row (r ∷ records) = elim (Bool-cases (is_module r)) [
  | inl e ↦ rw e (
      All-append IsSound (or_dropped _) (module_commands row records)
        (or_dropped-IsSound _ (
          Ensures-map (All IsSafe) (All IsSound) (metasploit_commands _ _ _ _ _)
            All-IsSound_of_IsSafe (metasploit_commands-IsSafe _ _ _ _ _)))
        (module_commands-IsSound row records))
  | inr e ↦ rw e (module_commands-IsSound row records)
]

catalog_commands-IsSound :
    (row : LedgerRow) (catalog : Option (Text → List ModuleRecord))
    → All IsSound (catalog_commands row catalog)
unfolding catalog_commands
catalog_commands-IsSound row none = tt
catalog_commands-IsSound row (some records_for) =
    module_commands-IsSound row (records_for row.cve_id)

examine-IsSound :
    (id source : Text) → Ensures (All IsSound) (searchsploit_examine_commands id source)
unfolding searchsploit_examine_commands
examine-IsSound id source =
    Ensures-bind (λ _. Unit {0}) (All IsSound) (validate_edb_id id) _ (Ensures-any _)
      (λ name _ _. one-IsSound (make_command _ _ _ _ _) (make_command-IsSound _ _ _ _ _))

examine_all-IsSound : (ids : List Text) → All IsSound (examine_all ids)
unfolding examine_all
examine_all-IsSound [] = tt
examine_all-IsSound (id ∷ ids) =
    All-append IsSound (or_dropped _) (examine_all ids)
      (or_dropped-IsSound _ (examine-IsSound id _)) (examine_all-IsSound ids)

more_exploits-Yields :
    (row : LedgerRow) (extra : ℕ) → Yields (All IsSound) (more_exploits row extra)
unfolding more_exploits
more_exploits-Yields row extra = elim (Bool-cases (ltb 0 extra)) [
  | inl e ↦ rw e (
      one-Yields (make_command _ _ _ _ _) (
        make_command-named _ safe _ _
          (filled-append (show_number extra) _ (show_number-filled extra))))
  | inr e ↦ rw e tt
]

indexed_exploits-Yields :
    (row : LedgerRow) (records : Option (List Text))
    → Yields (All IsSound) (indexed_exploits row records)
unfolding indexed_exploits
indexed_exploits-Yields row none = tt
indexed_exploits-Yields row (some records) =
    Yields-bind (All IsSound) (All IsSound) (more_exploits row _) _ (more_exploits-Yields row _)
      (λ more sound.
        All-append IsSound (examine_all (take max_exploit_commands records)) more
          (examine_all-IsSound _) sound)

exploit_commands-Yields :
    (row : LedgerRow) (exploits : Option (Text → Option (List Text)))
    → Yields (All IsSound) (exploit_commands row exploits)
unfolding exploit_commands
exploit_commands-Yields row none = tt
exploit_commands-Yields row (some exploits_for) =
    indexed_exploits-Yields row (exploits_for row.cve_id)

gather_commands-Yields :
    (row : LedgerRow) (indices : Indices)
    → IsClean row.target
    → Yields (All IsSound) (gather_commands row indices)
unfolding gather_commands
gather_commands-Yields row indices h =
    Yields-bind (All IsSound) (All IsSound) (searchsploit_commands _ _ _) _
      (searchsploit_commands-Yields _ _ _)
      (λ lookups a.
        Yields-bind (All IsSound) (All IsSound) (nmap_commands row.target row.port _ _) _
          (nmap_commands-Yields row.target row.port _ _ h
            (nse_selection-IsName row indices.scripts))
          (λ scans b.
            Yields-bind (All IsSound) (All IsSound) (more_scripts _) _ (more_scripts-Yields _)
              (λ more c.
                Yields-bind (All IsSound) (All IsSound) (web_commands row) _
                  (web_commands-Yields row h)
                  (λ probes d.
                    Yields-bind (All IsSound) (All IsSound) (exploit_commands row indices.exploits)
                      _ (exploit_commands-Yields row indices.exploits)
                      (λ exploits e. All-append IsSound lookups _ a (
                        All-append IsSound scans _ b (
                          All-append IsSound more _ c (
                            All-append IsSound probes _ d (
                              All-append IsSound (catalog_commands row indices.catalog) exploits
                                (catalog_commands-IsSound row indices.catalog) e)))))))))

-- For a target without control characters and a selection of categories that can be read, building the
-- commands of a lead always gives a list, whatever the indices of scripts, modules and exploits hold: the
-- commands that it gathers all keep the boundary, and what it gives is those without the composed ones
-- outside the selection.
pub build_commands_total :
    (row : LedgerRow) (indices : Indices) (allowed : Option (List Tag))
    (permitted : Category → Bool)
    → IsClean row.target
    → permitted_by allowed ≡ ok permitted
    → (out : List Command) × (kept : List Held) × (gather_commands row indices ≡ ok out)
      × (build_commands row indices allowed ≡ ok kept)
      × All IsSound out
      × Selects permitted (map held out) kept
unfolding build_commands
build_commands_total row indices allowed permitted h p =
    let (out, e, sound) =
      Yields-ok (All IsSound) (gather_commands row indices)
        (gather_commands-Yields row indices h) in
    let (kept, _, selects) = select_total permitted (map held out) (map-held-Keeps out sound) in
    (
      out,
      kept,
      e,
      rw (e, assert_Keeps-ok (map held out) (map-held-Keeps out sound))
          ((filter_commands_iff (map held out) allowed kept).1
            (permitted, p, map-held-Keeps out sound, selects)),
      sound,
      selects,
    )
