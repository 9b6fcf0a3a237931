-- ===== src/Store/Graph/Kept.antt =====
-- reconkg/store.py: the writes to hosts, runs of all writes, and what they keep of the graph.
use reconkg.Base.{
  ℕ, Option, none, some, List, [], ◌∷◌, is_empty, All, ◌≡◌, refl, ◌∙◌, Bool-cases, inl, inr,
}
use reconkg.Base.Text.{Text, text_eq_refl}
use reconkg.Base.Dict
use reconkg.Base.Dict.{get-put}
use reconkg.Models.{Provenance, new_node, observe}
use reconkg.Models.Graph.{Host}
use reconkg.Commands.Build.Clean.{IsClean}
use reconkg.Auth.Address.{IsAddressText, validate_address, validate_address-IsClean}
use reconkg.Store.{
  Stamp, TargetStore, new_store, emit, with_host, WriteResult, done, raised, require_service,
  new_hostnames,
}
use reconkg.Store.Operations.{
  record_lead, record_port, set_service, record_fingerprint, adjust_fingerprint_confidence,
}
use reconkg.Store.Hosts.{
  new_host, host_made, host_seen_again, ensured, ensure_host, extended, key_of, add_hostnames,
}
use reconkg.Store.Announced.{
  Op, host_ensured, hostnames_given, port_given, service_given, fingerprint_given,
  confidence_lowered, lead_given, emitted, apply, apply_all,
}
use reconkg.Store.Graph.{
  IsGraph, IsGiven, written-IsGraph, rewritten-IsGraph, lead_recorded-IsGraph, emitted-IsGraph,
}
use reconkg.Store.Graph.Parts.{
  port_recorded-IsGraph, service_in-IsGraph, fingerprint_recorded-IsGraph, adjusted_at-IsGraph,
}

module _ (round4 : ℕ → ℕ) (parse_ip : Text → Option Text)
    (ip-IsAddressText : (t a : Text) → parse_ip t ≡ some a → IsAddressText t a) where
  -- The host that a call gives is in the table that it leaves.
  abbrev IsStored : (key : Text) → TargetStore × WriteResult Host → Type 0
  IsStored key (t, raised e) = IsGraph t
  IsStored key (t, done host) = IsGraph t × (Dict.get t.hosts key ≡ some host)

  stored-IsGraph :
      (key : Text) (t : TargetStore) (o : WriteResult Host) → IsStored key (t, o) → IsGraph t
  stored-IsGraph key t (raised e) g = g
  stored-IsGraph key t (done host) (g, e) = g

  put_here :
      (s : TargetStore) (key : Text) (host : Host)
      → Dict.get (Dict.put s.hosts key host) key ≡ some host
  put_here s key host = get-put s.hosts key key host ∙ (rw (text_eq_refl key) refl)

  host_made-IsStored :
      (stamp : Stamp) (address : Text) (prov : Provenance) (s : TargetStore) (o : Option Text)
      → IsGraph s
      → IsClean address
      → IsStored address
          (host_made round4 parse_ip stamp address prov s (new_host round4 parse_ip prov o))
  unfolding host_made new_host emit with_host
  host_made-IsStored stamp address prov s none g c = g
  host_made-IsStored stamp address prov s (some a) g c =
      let host : Host = record {
        node = new_node prov [];
        address = a;
        hostnames = [];
        os_guess = none;
        ports = [];
      } in
      (emitted-IsGraph _ _ (written-IsGraph s address host g c (tt, tt)), put_here s address host)

  host_seen_again-IsStored :
      (stamp : Stamp) (address : Text) (prov : Provenance) (s : TargetStore) (o : Option Host)
      → IsGraph s
      → IsClean address
      → Dict.get s.hosts address ≡ o
      → IsStored address (host_seen_again round4 parse_ip stamp address prov s o)
  unfolding host_seen_again emit with_host
  host_seen_again-IsStored stamp address prov s none g c e =
      host_made-IsStored stamp address prov s (validate_address parse_ip address) g c
  host_seen_again-IsStored stamp address prov s (some old) g c e =
      let host : Host = record old { node = observe round4 prov old.node } in
      (
        emitted-IsGraph _ _ (rewritten-IsGraph s address old host g e (λ h. h)),
        put_here s address host,
      )

  ensured-IsStored :
      (stamp : Stamp) (raw : Text) (prov : Provenance) (s : TargetStore) (o : Option Text)
      → IsGraph s
      → validate_address parse_ip raw ≡ o
      → IsStored (key_of round4 parse_ip raw o) (ensured round4 parse_ip stamp prov s o)
  unfolding ensured key_of
  ensured-IsStored stamp raw prov s none g e = g
  ensured-IsStored stamp raw prov s (some address) g e =
      host_seen_again-IsStored stamp address prov s (Dict.get s.hosts address) g
        (validate_address-IsClean parse_ip ip-IsAddressText raw address e) refl

  extended-IsGraph :
      (stamp : Stamp) (given key : Text) (names : List Text) (t : TargetStore)
      (o : WriteResult Host)
      → IsStored key (t, o)
      → IsGraph (extended round4 parse_ip stamp given key names (t, o)).0
  unfolding extended
  extended-IsGraph stamp given key names t (raised e) g = g
  extended-IsGraph stamp given key names t (done host) (g, e) =
      elim (Bool-cases (is_empty (new_hostnames host.hostnames names))) [
        | inl n ↦ rw n g
        | inr n ↦ rw n (emitted-IsGraph _ _ (rewritten-IsGraph t key host _ g e (λ h. h)))
      ]

  apply-IsGraph :
      (op : Op) (s : TargetStore) → IsGiven op → IsGraph s → IsGraph (apply round4 parse_ip op s)
  unfolding apply ensure_host add_hostnames record_port set_service record_fingerprint
      adjust_fingerprint_confidence record_lead
  apply-IsGraph (host_ensured stamp raw prov) s n g =
      stored-IsGraph (key_of round4 parse_ip raw (validate_address parse_ip raw))
        (ensured round4 parse_ip stamp prov s (validate_address parse_ip raw)).0
        (ensured round4 parse_ip stamp prov s (validate_address parse_ip raw)).1
        (ensured-IsStored stamp raw prov s (validate_address parse_ip raw) g refl)
  apply-IsGraph (hostnames_given first second raw names prov) s n g =
      extended-IsGraph second raw (key_of round4 parse_ip raw (validate_address parse_ip raw)) names
        (ensured round4 parse_ip first prov s (validate_address parse_ip raw)).0
        (ensured round4 parse_ip first prov s (validate_address parse_ip raw)).1
        (ensured-IsStored first raw prov s (validate_address parse_ip raw) g refl)
  apply-IsGraph (port_given stamp address port) s n g =
      port_recorded-IsGraph round4 stamp address port s (Dict.get s.hosts address) g n refl
  apply-IsGraph (service_given stamp address number service protocol) s n g =
      service_in-IsGraph round4 stamp address number service protocol s (Dict.get s.hosts address) g
        n refl
  apply-IsGraph (fingerprint_given stamp address number f protocol) s n g =
      fingerprint_recorded-IsGraph round4 stamp address number f protocol s
        (require_service address number protocol s) g refl
  apply-IsGraph (confidence_lowered stamp address number id factor reason tool protocol) s n g =
      adjusted_at-IsGraph round4 stamp address number protocol id factor reason tool s
        (require_service address number protocol s) g refl
  apply-IsGraph (lead_given stamp address number lead protocol) s n g =
      lead_recorded-IsGraph stamp address number lead protocol s
        (require_service address number protocol s) g refl
  apply-IsGraph (emitted event) s n g = emitted-IsGraph event s g

  apply_all-kept :
      (ops : List Op) (s : TargetStore)
      → All IsGiven ops
      → IsGraph s
      → IsGraph (apply_all round4 parse_ip ops s)
  unfolding apply_all
  apply_all-kept [] s n g = g
  apply_all-kept (op ∷ ops) s (n, ns) g =
      apply_all-kept ops (apply round4 parse_ip op s) ns (apply-IsGraph op s n g)

  -- Whatever sequence of calls is made of a new store, whatever addresses they give, the graph has one host
  -- for each address, no address with a NUL or a line break, one port for each number and protocol of a
  -- host, and one fingerprint for each key and one lead for each vulnerability and fingerprint of a service;
  -- if `ipaddress` writes an address with characters of the text that it read and hexadecimal digits, `:` and
  -- `.` only, and ports and services come with fingerprints and leads that are distinct in these ways.
  pub apply_all-IsGraph :
      (ops : List Op) → All IsGiven ops → IsGraph (apply_all round4 parse_ip ops new_store)
  unfolding new_store
  apply_all-IsGraph ops n =
      apply_all-kept ops new_store n (record { one_host = tt; its_entries = tt })
