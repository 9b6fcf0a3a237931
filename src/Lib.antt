-- ===== src/Lib.antt =====
-- reconkg keeps a graph of what is known of a network's hosts, matches software fingerprints against
-- known vulnerabilities, and hands an analyst commands to look closer. What exploits, denies
-- service, fuzzes or guesses passwords is to be named only, never composed: the boundary.
--
-- The parts and their files:
--   Base: text as a list of code points with Python's `lower`, `strip`, `startswith`, `replace` and
--     `join`, and `dict` as an association list in insertion order (Base/Dict).
--   Version: reconkg/vulnref.py `parse_version`, `compare_versions`, `version_satisfies`; Version/Order
--     and Version/Padding hold the lemmas, Version/Laws the results.
--   Cpe: reconkg/cpe.py `CPE`, `parse`, `_escape`, `_split_escaped`, `infer_cpe`; Cpe/Applicability is
--     `compare_attribute` and `CPERange`. It calls Version for the windows.
--   Vulnref: reconkg/vulnref.py `VulnEntry.matches`, which calls Cpe and Version, and the built-in
--     reference (Vulnref/Reference); Leads is `score` and `build_leads` of the same file, which call Vulnref,
--     Catalog and the marks of distributions' builds (Cpe/Backport, `looks_backported` of reconkg/cpe.py).
--   Catalog: reconkg/catalog.py `normalise_cve`, `ExploitCatalog` and `infer_maturity`; Catalog/Oneliner is
--     `msf_oneliner`, which calls Commands for its checks.
--   Auth: reconkg/auth.py roles, `Authenticator.resolve`, `from_header` and `require_role`;
--     Auth/Tickets is the table of WebSocket tickets with `issue_ticket` and `redeem_ticket`, Auth/Load is
--     `load_principals`, which makes the table of tokens that Auth reads, Auth/Scope `may_touch`, and
--     Auth/Address `validate_address`, which the store calls on an address. `hmac.compare_digest` raises on
--     texts outside ASCII, and so does the lookup of a token in a table that has one: the answer is 500.
--   Commands: reconkg/commands.py `Category`, `Command` with `__post_init__`; Commands/Validate the
--     validators, Commands/Resolve the categories of NSE scripts, Commands/Build the builders of each
--     tool (Commands/Build/Scripts: how `nmap_commands` answers scripts), Commands/Policy `filter_commands`
--     and `assert_no_composed_exploits`.
--   Sources: reconkg/sources.py `SourceRegistry`, whose confidences the fingerprints that Leads reads carry.
--   Store: reconkg/store.py `TargetStore`, its events and their ring; Store/Operations and Store/Hosts have the
--     writes, which use Models and Auth/Address, Store/Steps the events behind a step, Store/Announced runs of
--     the writes with the history that is read off the store after each call, and Store/Graph what they keep.
--   Planner: reconkg/planner.py `GapPlanner`, which reads the graph and assigns modules.
--   Handoff: reconkg/handoff.py `build_commands` and (Handoff/Report) `build_handoff`, which call Commands.
--   Events: reconkg/events.py `ClientSession` with its bounded queue and the rounds of its writer, and
--     `ConnectionManager` with `connect`, `broadcast` and `disconnect`.
--   RateLimit: reconkg/ratelimit.py `Bucket.take` and `RateLimiter.check` with its eviction.
--   Models: reconkg/models.py `GraphNode` with its bounded log of provenance, `observe` and `decay`;
--     Models/Graph has fingerprints, services, ports and hosts.
-- Each folder's Tests holds runs at concrete inputs.
--
-- State is passed explicitly: a method that changes the authenticator's table takes the table and gives
-- the new one beside its answer. Exceptions are values: `none`, or the `err` of a result type. A reading
-- of a clock, a random token and the time are arguments, in nanoseconds. A message is a constructor that
-- holds the values it quotes, or is left out where nothing reads it back (the rationale of a command).
-- `strptime`, `ipaddress` and `shlex.quote` are parameters (of `ipaddress`, it is relied on that the text of an
-- address has characters of the text that was read, scopes with line breaks included, and hexadecimal digits,
-- `:` and `.` only), and so is `round` to four digits of a confidence or a priority, which is a number of
-- 1/10000.
--
-- Loops that are not structural run on fuel: the eviction of tickets on the number of the principal's
-- tickets (each round removes one), the removal of `.nse` on the length of the text (each round takes
-- four characters), the digits of a number on the number itself.
--
-- Not modelled: letters outside ASCII in `lower`, digits outside ASCII in `\d`, the errors of floats (scores,
-- time and tokens are exact units), what the feeds of exploitation hold (a factor and a text for each
-- identifier), writers that come between the two halves of `add_hostnames`, and the engine, the stages, the
-- loaders of indices, the databases, the resolver, the user interface and the HTTP routes.
pub mod Base
pub mod Version
pub mod Cpe
pub mod Vulnref
pub mod Auth
pub mod Commands
pub mod Events
pub mod RateLimit
pub mod Models
pub mod Handoff
pub mod Store
pub mod Planner
pub mod Catalog
pub mod Leads
pub mod Sources
