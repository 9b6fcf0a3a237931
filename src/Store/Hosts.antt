-- ===== src/Store/Hosts.antt =====
-- reconkg/store.py: the writes of `TargetStore` to a host as a whole.
use reconkg.Base.{ℕ, Option, none, some, List, [], ◌++◌, if◌then◌else◌, is_empty}
use reconkg.Base.Text.{Text}
use reconkg.Base.Dict
use reconkg.Base.Dict.{Dict}
use reconkg.Models.{Provenance, new_node, observe}
use reconkg.Models.Graph.{Host, key}
use reconkg.Auth.Address.{validate_address}
use reconkg.Store.{
  EventKind, host_added, host_updated, host_seen, hostnames_added, Stamp, TargetStore, value_error,
  WriteResult, done, raised, with_host, new_hostnames,
}
use reconkg.Store.Operations.{announce}

module _ (round4 : ℕ → ℕ) (parse_ip : Text → Option Text) where
  abbrev seen_event :
      Stamp → EventKind → (address : Text) → Host → Provenance → TargetStore → TargetStore
  seen_event stamp kind address host prov store =
      announce stamp kind address address
        (host_seen address host.node.provenance.confidence prov.source_tool prov.principal)
        (with_host address host store)

  -- `Host(...)`, whose validator reads the address again.
  unfoldable pub new_host : Provenance → Option Text → Option Host
  new_host prov none = none
  new_host prov (some address) = some (record {
    node = new_node prov [];
    address = address;
    hostnames = [];
    os_guess = none;
    ports = [];
  })

  unfoldable pub host_made :
      Stamp
      → (address : Text) → Provenance
      → TargetStore
      → Option Host
      → TargetStore × WriteResult Host
  host_made stamp address prov store none = (store, raised value_error)
  host_made stamp address prov store (some host) =
      (seen_event stamp host_added address host prov store, done host)

  unfoldable pub host_seen_again :
      Stamp
      → (address : Text) → Provenance
      → TargetStore
      → Option Host
      → TargetStore × WriteResult Host
  host_seen_again stamp address prov store none =
      host_made stamp address prov store (new_host prov (validate_address parse_ip address))
  host_seen_again stamp address prov store (some old) =
      let host : Host = record old { node = observe round4 prov old.node } in
      (seen_event stamp host_updated address host prov store, done host)

  unfoldable pub ensured :
      Stamp → Provenance → TargetStore → Option Text → TargetStore × WriteResult Host
  ensured stamp prov store none = (store, raised value_error)
  ensured stamp prov store (some address) =
      host_seen_again stamp address prov store (Dict.get store.hosts address)

  unfoldable pub ensure_host :
      Stamp → (address : Text) → Provenance → TargetStore → TargetStore × WriteResult Host
  ensure_host stamp address prov store =
      ensured stamp prov store (validate_address parse_ip address)

  -- The host object is the one of the table; the event names what the caller gave.
  unfoldable pub extended :
      Stamp
      → (given key : Text) (hostnames : List Text) → TargetStore × WriteResult Host
      → TargetStore × WriteResult Host
  extended stamp given key hostnames (store, raised e) = (store, raised e)
  extended stamp given key hostnames (store, done host) =
      let added = new_hostnames host.hostnames hostnames in
      let longer : Host = record host { hostnames = host.hostnames ++ added } in
      if is_empty added then (store, done host) else (
        announce stamp host_added given given (hostnames_added added) (with_host key longer store),
        done longer,
      )

  -- The key under which `ensure_host` keeps what it was given.
  unfoldable pub key_of : (address : Text) → Option Text → Text
  key_of address none = address
  key_of address (some key) = key

  unfoldable pub add_hostnames :
      (first second : Stamp) (address : Text) (hostnames : List Text)
      → Provenance
      → TargetStore
      → TargetStore × WriteResult Host
  add_hostnames first second address hostnames prov store =
      extended second address (key_of address (validate_address parse_ip address)) hostnames
        (ensure_host first address prov store)
