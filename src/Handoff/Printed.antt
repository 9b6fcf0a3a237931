-- ===== src/Handoff/Printed.antt =====
-- reconkg/handoff.py: `build_handoff` for a row whose target came through `validate_address`.
use reconkg.Base.{Bool, ◌⊎◌, inl, inr, Option, some, List, ◌++◌, map, All, ◌≡◌, refl}
use reconkg.Base.Text.{Text}
use reconkg.Commands.{Category, Tag, Command, Result, Refusal, ok, err}
use reconkg.Commands.Build.Sound.{IsSound}
use reconkg.Commands.Build.Sound.{bind_inv}
use reconkg.Commands.Build.Scripts.{IsScan, nmap_commands_inv}
use reconkg.Commands.Build.{searchsploit_commands, nmap_commands}
use reconkg.Commands.Policy.{held, permitted_by}
use reconkg.Commands.Policy.Filter.{Selects}
use reconkg.Auth.Address.{IsAddressText, validate_address, validate_address-IsClean}
use reconkg.Handoff.{
  LedgerRow, Indices, nse_selection, more_scripts, web_commands, catalog_commands, exploit_commands,
  gather_commands,
}
use reconkg.Handoff.Total.{build_commands_total}
use reconkg.Handoff.Report.{Reference, Report, report_of, build_handoff}

Result-cases : {A : Type 0} (r : Result A) → ((a : A) × (r ≡ ok a)) ⊎ ((e : Refusal) × (r ≡ err e))
Result-cases (ok a) = inl (a, refl)
Result-cases (err e) = inr (e, refl)

-- Among the gathered commands are the scans of the row: the detection of versions at its port, and an answer
-- to each script that its selection has.
abbrev pub HasScans : LedgerRow → Indices → List Command → Type 0
HasScans row indices out =
    (before after scans : List Command) × (out ≡ before ++ (scans ++ after))
    × IsScan row.target row.port (nse_selection row indices.scripts).0.categories
        (nse_selection row indices.scripts).0.selected scans

gather_commands-HasScans :
    (row : LedgerRow) (indices : Indices) (out : List Command)
    → gather_commands row indices ≡ ok out
    → HasScans row indices out
unfolding gather_commands
gather_commands-HasScans row indices out h =
    let (lookups, _, h1) = bind_inv (searchsploit_commands _ _ _) _ h in
    let (scans, made, h2) = bind_inv (nmap_commands row.target row.port _ _) _ h1 in
    let (more, _, h3) = bind_inv (more_scripts _) _ h2 in
    let (probes, _, h4) = bind_inv (web_commands row) _ h3 in
    let (exploits, _, h5) = bind_inv (exploit_commands row indices.exploits) _ h4 in
    (
      lookups,
      more ++ (probes ++ (catalog_commands row indices.catalog ++ exploits)),
      scans,
      cc h5,
      (nmap_commands_inv _ _ _ _ scans made).1,
    )

module _ (parse_ip : Text → Option Text) (quote : Text → Text) where
  -- For a row whose target is an address that `validate_address` gave, if `ipaddress` writes an address with
  -- characters of the text that it read and hexadecimal digits, `:` and `.` only: where the selection of
  -- categories cannot be read, the hand-off is refused with the error of the selection; else it is built,
  -- whatever the indices and the reference hold. Its commands are those of the gathered ones that the selection
  -- permits; the gathered ones all keep the boundary, and have among them the detection of versions at the
  -- port of the row followed by an answer to each selected script.
  pub build_handoff_total :
      ((t a : Text) → parse_ip t ≡ some a → IsAddressText t a)
      → (raw : Text) (row : LedgerRow) (reference : Reference) (indices : Indices)
        (allowed : Option (List Tag))
      → validate_address parse_ip raw ≡ some row.target
      → ((e : Refusal) × (permitted_by allowed ≡ err e)
          × (build_handoff quote row reference indices allowed ≡ err e))
        ⊎ ((permitted : Category → Bool) × (permitted_by allowed ≡ ok permitted)
            × (out : List Command) × (gather_commands row indices ≡ ok out)
            × HasScans row indices out
            × (report : Report) × (build_handoff quote row reference indices allowed ≡ ok report)
            × All IsSound out
            × Selects permitted (map held out) report.commands)
  unfolding build_handoff report_of
  build_handoff_total ip raw row reference indices allowed v =
      elim (Result-cases (permitted_by allowed)) [
        | inr (e, p) ↦ inl (e, p, rw p refl)
        | inl (permitted, p) ↦
            let (out, kept, gathered, built, sound, selects) =
              build_commands_total row indices allowed permitted
                (validate_address-IsClean parse_ip ip raw row.target v) p in
            inr (
              permitted,
              p,
              out,
              gathered,
              gather_commands-HasScans row indices out gathered,
              report_of quote row reference permitted kept,
              rw (p, built) refl,
              sound,
              selects,
            )
      ]
