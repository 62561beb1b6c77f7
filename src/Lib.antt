-- ===== src/Lib.antt =====
-- onejudge: runs a worker agent against a supervisor until the supervisor judges the work done, and
-- judges the outcome with one judge or a panel of them. This library models the core crate,
-- crates/onejudge/src, in these parts.
--
-- Usage, Error, Transcript, Control, HistoryName, Report, Telemetry: the modules usage.rs,
-- error.rs, transcript.rs, control.rs, history_name.rs, report.rs and telemetry.rs. Structs are
-- records and enums are data types with the source's names; a `&mut self` method returns the new
-- value. Telemetry.Aggregate is `aggregate` with its helpers.
--
-- Note: note.rs. Note.antt has the types, `Criteria` and the two blocks that hand notes over;
-- Note.Texts their fixed texts; Note.Admission (with Note.Words and Note.Admission.Versions) is
-- `refusal`, which admits a criterion. Note.Blocks, Note.Admission.Phrases and
-- Note.Admission.Deferrals hold proofs.
--
-- Provider: the types of provider.rs; Provider.Parse its readers (`parse_supervisor`,
-- `parse_verdict`, `render_transcript`); Provider.Reask the loop `supervise_with_reask`.
--
-- Panel: panel.rs. Panel.antt combines the supervisors' answers (`combine_supervision`),
-- Panel.Setup builds a panel, Panel.Verdicts combines verdicts and assessments. Panel.Decisions,
-- Panel.Messages and Panel.Passing hold proofs.
--
-- Engine: engine.rs. Engine.antt has the types, Engine.Noop the no-op streak, Engine.Redirects
-- `push_redirected`, Engine.Host what the engine runs against, Engine.Monad the steps of a run,
-- Engine.Notes the inbox, Engine.Worker and Engine.Supervisor the two halves of a turn, and
-- Engine.Drive the loop `drive` and `converse`. Engine.Ensures, Engine.Growth and its children,
-- Engine.Noop.Settles and the children of Engine.Redirects hold proofs.
--
-- Engine.Ledger keeps account of the sends of the inbox: it says of a host how its inbox, its
-- answers, its drops and its watch change the counts of one send, and its children follow a run.
-- That a watch accounts for what it takes is assumed of the host; interrupt.rs, which runs the
-- watch, is modelled apart from the engine, in Interrupt, where the same count is proved of it.
--
-- Spawn: spawn.rs, with the operating system and the embedder's hook as parameters. Spawn.Records
-- holds proofs.
--
-- Command: command.rs. Command.Frames has the requests and responses, Command.Call `call` and the
-- provider's operations; serde is the parameter `Wire`. Command.Answers holds proofs.
--
-- Llmlint: llmlint.rs. Llmlint.antt has the provider's state and the labels, Llmlint.Reading what
-- is read of the output, Llmlint.Run the run of the linter and the probe, Llmlint.Judge the
-- operations. Llmlint.Arguments, Llmlint.LabelMaps and Llmlint.Decisions hold proofs.
--
-- Harness: oneharness/report.rs. Harness.antt has the report's types, which are oneharness_core's,
-- Harness.Turn what is read of the chosen result, Harness.Select the choice and its failure.
-- Harness.Choice holds proofs.
--
-- Interrupt: interrupt.rs, the run of a watch with a number of polls, and no result where the turn
-- outlives them; the source polls until the turn ends. Interrupt.Accounts and Interrupt.Claims hold
-- proofs.
--
-- Stream: stream.rs, the reader of a streamed provider's lines. Stream.Events holds proofs.
--
-- Split: split.rs, over a record of a provider's operations. Split.Sides holds proofs.
--
-- Examples: a concrete platform and host, and the theorems at concrete inputs.
--
-- Texts are lists of code points. What lies outside the crate is a parameter: `Platform` has the
-- floating-point numbers, the tables of Unicode and serde_json, and `Host` the provider, the
-- observer, the clock, the inbox and the watch over a live turn, as functions on a state that they
-- own. A theorem for every platform and host assumes nothing of them. Unsigned counters that the
-- source adds up keep their wrap-around.
--
-- A step of a run returns a value and the new run, or an exit with the run: stopped by the
-- observer, ended with its reasons, failed with an error, or panicked. `drive` takes two amounts of
-- fuel: the rounds of its loop, and the decisions of one turn, which are taken again while notes
-- keep arriving. Running out of fuel is an exit of its own, from which `converse` returns nothing.
-- The source has no bound on notes that keep arriving, nor on turns that are lost and taken again,
-- so that no fixed fuel is enough for a run with an inbox or with supervised lost turns.
--
-- The output of a process is its decoded text, and an exit code is a natural number.
--
-- Not modelled: the harness provider, which calls the harness library; schema output; skill files;
-- the command line.
pub mod Common
pub mod Platform
pub mod Usage
pub mod Error
pub mod Transcript
pub mod Note
pub mod HistoryName
pub mod Telemetry
pub mod Provider
pub mod Control
pub mod Report
pub mod Panel
pub mod Engine
pub mod Spawn
pub mod Split
pub mod Interrupt
pub mod Stream
pub mod Command
pub mod Harness
pub mod Llmlint
pub mod Examples
