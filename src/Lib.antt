-- ===== src/Lib.antt =====
-- ATB: tamper-evident bundles of AI-agent events.
--
-- The program (Go) captures agent and tool activity as events, links them by SHA-256 into a chain, and
-- stores the chain as a bundle, one JSON record to a line. This library models the packages that make
-- and check that evidence, and the rules by which captured evidence is judged.
--
-- Parts, each with the code that it models:
--
--   Json, Json/Float: the values of encoding/json, and float64.
--   Prelude: shared types and lemmas. Prelude/Saving says how a Save can end: with the new file, with the
--     old one and an error, or with the new one and an error, when the directory is not synchronised.
--   Canonicalize: internal/canonicalize/canonicalize.go. Text is writeString, Keys utf16Less, with its order
--     stated by runes in Keys/Runes, Sort the order of an object's keys, Order the independence of the
--     walk over maps.
--   Event: internal/event/event.go, the event and its JSON object.
--   HashChain: internal/hash/hash.go. Compute, Chain and Verify; Spec, Linked and Tamper prove.
--   Bundle: internal/bundle/bundle.go. Manifest is parseManifestData, Append AppendWithOptions and
--     NewWithOptions, Verify Bundle.Verify and verifyManifestBundle, Load LoadReaderWithLimits,
--     LoadVerified and setSourcePrefixHashes, with scanRawLines in Lines and sourcePrefixTracker in
--     Prefix; Lines/Cut, Prefix/Bound and Described describe a loaded file by its bytes. Sign is sign.go
--     (signToWithSignerLimited and the functions it calls) with NewBundleSignatureRecord of
--     internal/sign/bundle.go. Lock is lock.go: withBundleLock and the retry loop of AcquireWithRetry, of
--     which Steps is the step relation.
--   Acquisition: internal/acquisition. Reconcile is reconcile.go, whose map of known records is passed
--     from call to call; Checkpoint is checkpoint.go and RebindBundleCheckpoint. Import is
--     import_integration.go: Plan planReconciliation, Write applyReconciliation, Stamp
--     stampManifestProvenance, Capped cappedReader, Run ImportChatlog and ImportOTel from the guards to the
--     saved files.
--   CaptureJournal: internal/capturejournal/journal.go. Space is strings.TrimSpace, Read readEntries,
--     Open and Read, Append is Append. A journal on disk is a `Disk` of three files, in memory a
--     `Journal`; what the operating system makes of a write is a value of `Io`.
--   CaptureStatus: internal/proxy/status.go and what it calls in capture.go, as a function of what bundle,
--     journal and checkpoint read as (`Readings`); Contract and Healthy say what a healthy capture is without
--     the cases of the switch.
--   CaptureSession: captureCoordinator of internal/proxy/capture.go. Drain brings journal entries into the
--     bundle, Recover is recover, Pending commitPending, Commit commit and journalObservation. Runs is the
--     step relation of a capture: commits, crashes at any point between two saves, and restarts.
--   Profiles: internal/profiles/schema.go and evaluate.go. Evaluate is Evaluate with its rules, Fields the
--     indexes over records, Text the texts of findings; Holds states what the rules ask without indexes
--     and loops, Compliant and Passes are the proofs. Dsl is compileDSLEvents of dsl.go.
--   Roles: pkg/auth/roles.go, the order of the roles of the HTTP APIs.
--   Examples: tests, and each theorem at a concrete input.
--
--   The journal and the bundles use the chain hash of HashChain; the loader and the journal cut a file
--   into lines by the same function; Reconcile reads the records of Bundle.
--
-- A method that changes its receiver is a function that returns the new state; an error is a value of a
-- data type with a constructor for each place where the code returns one. A map is its entries, or an
-- association list. Strings are native texts, so they are valid UTF-8, and a bytes.Buffer is the text
-- written to it. A float64 is its bit pattern; a Go int is an integer without bounds where the code
-- only counts records with it, and Float.to_int has the bounds of int64.
--
-- Recursion is on lists, on values, or on the rounds left; where a number bounds the rounds, a theorem
-- or a comment beside it says why it is enough. A decimal text has 20 rounds, which an int64 does not
-- use up; a retry loop has timeout / interval + 2, and the loop over a saved file's lines as many as the
-- file has bytes.
--
-- Not in src, and so parameters: strconv.FormatFloat and SHA-256 (`Platform`), encoding/json on
-- records and on v1 manifests (`Codec`), Ed25519 and base64, the clock, random identifiers, the file
-- system, and encoding/json on checkpoints and journal entries (`CheckpointCodec`, `EntryCodec`),
-- on observations (`ObservationCodec`) and on the object of a v1 manifest (`ObjectCodec`). The parsers of
-- the imports are parameters too (`ChatlogReader`), and `World`, `Outside` and `Rounds` say what clock,
-- lock and file system do, the end of each Save included. Signing has its own record of them (`Signing`),
-- evaluation one of strings.EqualFold, %q and time.Parse (`Library`). Their documented behaviour,
-- where a theorem needs it, is a hypothesis of that theorem.
--
-- Not modelled: the command line (cmd/atb), HTTP servers and clients, the SDKs, the web viewer, and the
-- code that only moves bytes between files and sockets; lockPath, and how a file is written and renamed
-- into place, of which only the ends of a Save are modelled; profile
-- files and reports, which read what is modelled here.
mod Prelude
pub mod Json
pub mod Canonicalize
pub mod Event
pub mod HashChain
pub mod Bundle
pub mod Acquisition
pub mod CaptureJournal
pub mod CaptureStatus
pub mod CaptureSession
pub mod Profiles
pub mod Roles
mod Examples
