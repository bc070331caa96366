-- ===== src/Lib.antt =====
-- Models and theorems for the Python runtime of mola-core: the programs of runtime/ that run in a
-- computer's guest or on its host, as far as their logic is their own.
--
-- The durable-exec module (runtime/durable_exec.py) runs a command in the guest at most once per
-- operation identifier. DurableExec/Request.antt has `operation` and `spec`, the checks of a
-- request; DurableExec/Receipt.antt the receipt and `public`; DurableExec/Host.antt what a locked
-- section observes of the machine (boot identity, clock, /proc, cgroups, directory and file
-- attributes), with `folder`, `capabilities`, `process_state`, `scope_path` and `scope_gone`;
-- DurableExec/Store.antt `load` and `save` over the receipts folder; DurableExec/Operations.antt
-- `reconcile`, `status` and `submit`; DurableExec/Cancellation.antt `cancel`; DurableExec/Launch.antt
-- `worker` and `dispatch`. Every section that holds the
-- receipt's lock is one step, the start of a command behind its worker's section is another, and DurableExec/History.antt runs any list of steps, each with a
-- machine of its own, so interleavings, crashes between sections, reboots and clocks are arbitrary.
-- Leads.antt and Rules.antt carry the proofs: a relation between the states before and after a
-- section, and a rule for each way to build one.
--
-- The native host (runtime/native/host.py) keeps the disks of the virtual machines. Modelled is how a
-- snapshot is moved between hosts, under NativeHost/Snapshot: Manifest.antt has the checks of a
-- manifest, Transfer.antt `import_snapshot`, `write_snapshot_chunk`, `seal_snapshot`,
-- `read_snapshot_chunk` and `delete_snapshot` as actions on the four files of the snapshot's folder,
-- with SHA-256 and base64 as parameters, and a seal whose process ends between its two writes.
-- Runs.antt runs any sequence of them; Whole.antt has the invariant of the folder, Sound.antt the
-- proof that each operation keeps it by the rules of Base/Hoare.antt; Retries.antt and ReadBack.antt
-- are about requests that are sent again and about reading an artifact back. A write of one file is
-- taken as a whole; a process that ends inside the append of a chunk is not modelled, and neither are the
-- checkpoints that the machine takes under the name of an upload, nor a snapshot of its own that is cut
-- off between its two writes.
--
-- The storage operations of a machine are accepted into a journal of receipts and run by worker
-- threads. NativeHost/Storage/Journal.antt has the receipts, `submit_storage` and recovery,
-- Worker.antt `run_storage_worker` as the sections before and after the operation's own work, which
-- is a parameter, and History.antt every order of these steps that the machine's lock allows, with the
-- end of the supervisor at any point between them. Evolution.antt says how a section changes a
-- receipt, Admission.antt what a request does to the journal by the rules of Base/Hoare.antt, Single,
-- Safety and Replies hold the theorems. The journal is that of one machine, and an incarnation's folder
-- is the receipts that name it. A save of a worker may raise, before its file is replaced or after; the
-- two saves of a worker's last section are one step. A supervisor that ends between the two writes of one request
-- (receipt, then machine.json) is not modelled.
--
-- The session agent (runtime/session_agent.py) restores a desktop session after a boot.
-- SessionAgent/Restore.antt has `valid_manifest` and `restore_first`; a call is cut off after a number
-- of effects that its caller gives, so a crash at every point is a call of its own. Once.antt has the
-- calls of one boot. The cycle that publishes the status beside them is not modelled.
--
-- The browser proxy (runtime/browser_proxy.py) forwards a browser's requests to an upstream proxy with
-- the configured credential. BrowserProxy/Reader.antt has `header`, `line`, `exact_copy` and
-- `copy_body` over a socket whose bytes arrive in any pieces (Base/Bytes.antt), Request.antt the checks
-- of a request and what is written of it, Handler.antt the two peers, `relay` and `Handler.handle`. A
-- loop's fuel is what it can take from its socket (the bytes that remain, or the length of the body)
-- and Ends.antt and Terminates.antt show that it is enough. Framing, Copy, Chunked and Accepted are
-- about what is read and copied, Fields and Forwarded about what reaches the upstream, Onward and
-- Replies about what the browser is told. A send is taken to succeed, and the
-- addresses, the connections and the rounds of `select` are parameters. Configuration.antt has `validate`
-- and `connect`, Meter.antt `Meter.add`, Slots.antt the bound on the requests that run at once.
--
-- The guest tools (runtime/guest_tools.py) run in the guest for one private request each. Modelled are
-- the installations: GuestTools/Tool.antt has ToolError and the shared checks, Installer.antt
-- `installer_spec`, Jobs.antt the job files with `app_install` and `app_status`, Worker.antt
-- `install_worker`. As in the session agent, a process ends after a number of effects. Moves.antt says
-- what a worker leaves as it is; Once and Validated hold the theorems. Calls follow each other.
-- Software.antt has `software`, which switches the release of one application, with a call cut off
-- after any effect; Current.antt is about the recovery, Checked.antt about what may become current.
-- Cdp.antt has the WebSocket frames of the class CDP (`exact`, `send`, `receive`), with Base/Bits.antt
-- for the mask; Exact, Frames and Texts read back what was sent. The fuel of `exact` is the size
-- that it is asked for, that of `receive` the bytes to come, and Lives and Receives show that both are
-- enough. Input.antt has `crop_box` and `scoped_window_input`, Inside.antt where its events are.
--
-- The checkpoints of a running guest (runtime/native/live_checkpoint.py) freeze its root filesystem,
-- pause the machine, copy its disk, and publish the copy only after the guest was resumed and thawed.
-- LiveCheckpoint/Process.antt has the process identities and `ssh_command`, Journal.antt the journal,
-- the exchanges and what a call observes at each moment, Sealing.antt `seal` with the copy and the
-- publication of runtime/native/host.py, Recovery.antt `recover`, Attempt.antt `checkpoint`. A call is
-- cut off after a number of moments, and the detached watchdog may fence the attempt at any moment that
-- is not under the attempt's lock. Order.antt has the order that a copy must keep, and with Exchanges.antt a rule for each
-- kind of step (Base/Outcome.antt), Views, Copies, Seals and Recovers the proofs for the parts of a
-- call, Fenced and Consistent the theorems. Watchdog.antt has `qmp` and `watchdog`, whose second loop
-- never gives up: its fuel is the rounds that are looked at. Guest.antt has the helper and the guardian
-- that run in the guest: the helper as far as it comes, then the guardian, with a FIFREEZE of the
-- helper that may end late in any round; Released.antt what they leave. The journal is that of one
-- operation; starting processes and closing the control are left out.
--
-- CloneSanitizer/Sanitize.antt has runtime/native/sanitize_clone.py, which removes the identities from
-- the disk of a clone, over debugfs and e2fsck as parameters; Resets.antt says what it changes and
-- Cleared.antt what it has checked. NetworkEgress/Probe.antt has runtime/network_egress.py, the probe of
-- the country behind the managed proxy: its policy, the configuration it reads and the checks of the
-- response, whose pieces are the answers of the connection; Verified.antt is about its answer.
-- GuestRefresh/Refresh.antt has runtime/native/refresh_guest_agent.py: the checks of the guest daemon's
-- binary and manifest, and its installation on a disk over the programs of CloneSanitizer, to which
-- Run adds the filesystem's repair, the dumped file and the quoted names; Trusted.antt is about a run
-- that succeeds.
--
-- Conventions. JSON arguments are values of Base/Json.antt and are checked as the source checks
-- them. A function that raises returns a Result, a method an Exec action whose state comes back
-- beside the error. Time is in microseconds, and one locked section reads the clock once. What the
-- operating system and other programs decide is a field of the machine that a step observes; sizes
-- of JSON encodings are such fields too.
--
-- Not modelled: process and selector I/O, the redaction of command output, and the parts that
-- PROJECT.json lists as not modelled.
mod Base
pub mod DurableExec
pub mod NativeHost
pub mod SessionAgent
pub mod BrowserProxy
pub mod GuestTools
pub mod LiveCheckpoint
pub mod CloneSanitizer
pub mod NetworkEgress
pub mod GuestRefresh
