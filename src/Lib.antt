-- ===== src/Lib.antt =====
-- The sync engine of the integration hub: it reads the people and credentials of a PACS, issues
-- AccessGrid passes for them, and keeps the two systems in step, one cycle after another.
--
-- The parts, and the files of the repository that they are from:
--
-- - Pacs: the data of the adapter contract (src/agsync/lib/pacs/base.py): Person, Credential,
--   CredentialStatus, CredentialIdentity.
-- - AccessGrid: what the code reads of the SDK's cards, by `getattr` and `dict.get`. AccessGrid.Pages
--   is the loop of `list_cards` (src/agsync/ag/__init__.py), and Ends is about it.
-- - Tracking: the table `ag_credentials` (src/agsync/sync/tracking.py). A table is the list of its
--   rows, each statement a function of it under the name of the Python function. Keys, Lifecycle
--   and Order are about its primary key, its lookups and its orders.
-- - World: what a cycle works on, which is the table, the one setting that phase 3 keeps, the
--   snapshot's cache and the history of the calls made. `Services` holds the SDK, the adapter, the
--   clock, the dry-run switch and the check for changed settings, each a function of the whole
--   world, so that any behaviour over time is an instance. Methods that may raise are functions of
--   the world into a result beside the new world: what was written before an exception stays.
--   World.Calls has the rules for what a method may call (`Only`), World.Counts those for how often
--   (`Counts`), one for each way to compose methods.
-- - Snapshot: `build_snapshot`, `resolve_ag_cards`, `detailed_cards` (src/agsync/sync/snapshot.py).
-- - Writeback: src/agsync/sync/phases/writeback.py.
-- - Phases.Provision, LocalToAg, Deletions, AgToLocal, Retries, FieldChanges: phases 1 to 6
--   (src/agsync/sync/phases/phase1_provision.py and so on), each a function `run`, with the bodies
--   of its loops as functions of their own, named for what they do. Phases.Params: what phases 1
--   and 5 send. Phases.Dates: dates and identities as the theorems state them. The child Licence of
--   each phase is about its calls and the conditions on them.
-- - Engine and Engine.Cycle: one cycle, the handlers round it, and a turn of the loop
--   (src/agsync/sync/engine.py), with the mode that some vendors derive from the card template
--   (`template_shape` of src/agsync/ag/__init__.py). Engine.Breaker: the statuses that the loop can
--   come to.
-- - Safety: whole cycles, and many turns of the loop.
-- - Cdvi: the CDVI adapter (src/agsync/lib/pacs/cdvi). Hex and Cipher are the encrypted bodies of
--   client.py, Cards the card table and its edits (adapter.py), Pages the listings. Xor, RoundTrip,
--   Edits and Listing are about them.
-- - Millennium: the Millennium Ultra adapter (src/agsync/lib/pacs/millennium_ultra). Cardholders is
--   the data of export.py and of a recorded card, Ledger the table of pacs_cards.py. Of adapter.py,
--   WriteBack is what it is told of AccessGrid's cards, States the credentials it reports, Cycle the
--   deletions at the end of a cycle and Imports its import; ImportFile is import_file.py. Records,
--   Placed, Closed, Deletes, Files and Settled are about them.
-- - Connect: the registry of launches and the endpoints of src/agsync/routes/connect.py, with one
--   step function over requests. Weights counts launches, Sums and Callbacks compare the counts
--   before and after a request, Once is about whole sequences.
-- - Status: the reporter (src/agsync/status/reporter.py) and what a report says (payload.py). Waits
--   is about the reporter.
-- - DryRunSwitch: src/agsync/dryrun.py.
-- - Tests: a small site, and the theorems at its data.
--
-- The phases work on a snapshot and on the table, and call the services; the engine runs them in
-- their order, and stops between them where the settings have changed.
--
-- The loops of the code are over lists (the rows, the people, the cards), so that functions are by
-- structural recursion, but for two: `_paginate` has its own bound of 100 pages, and `list_cards` of
-- AccessGrid.Pages takes fuel, for which one round more than the pages reported is enough. Numbers
-- are natural: instants in microseconds (in milliseconds for the loops, the launches, the switch and
-- the reports), the share of a complete read in tenths. Texts of the CDVI cipher are lists of codes.
--
-- Parameters stand for decoding UTF-8, AES-GCM, Fernet, and the answers of a PACS or of
-- AccessGrid. `int(s, 16)` is modelled on hexadecimal digits, case folding on ASCII, and ids
-- without a colon are assumed where a key joins two by one. Digits are ASCII ones, where
-- `str.isdigit` takes more. The Millennium deletions take the dry-run switch once for a pass over
-- the cards, where the code asks it at each. A listed card without an id is left out of the index
-- by id, where the code raises.
--
-- The wait after a cycle is the interval kept in the status; that a trigger ends it, one set by an
-- abandoned cycle included, is left out, and a trigger is an argument of a turn. Instants are kept to
-- the microsecond where the table stores seconds.
--
-- Not modelled: threads and locks (a cycle is one sequence of steps, and what other threads do
-- shows in the answers of `Services`), the adapters of Avigilon, Alta and Lenel, the HTTP clients
-- and what they scrape, the SDK, the text and the logs of imports into Millennium, the passes that
-- its adapter opens, the database below the statements of tracking.py and pacs_cards.py, what is
-- only logged, the rest of the web interface, the signing and scrubbing of reports, sign-in and
-- the side-car.
pub mod Cdvi
pub mod Millennium
pub mod Connect
pub mod Status
pub mod DryRunSwitch
pub mod Prelude
pub mod Pacs
pub mod AccessGrid
pub mod Tracking
pub mod World
pub mod Snapshot
pub mod Writeback
pub mod Phases
pub mod Engine
pub mod Safety
mod Tests
