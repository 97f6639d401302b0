-- ===== src/Lib.antt =====
-- The LoRaHAM daemon (loraham_daemon/): it shares a LoRa radio between local clients. Each band
-- has a DATA socket, over which clients send packets to the air and receive what the radio hears,
-- and a configuration socket with a line protocol. A packet takes this way through the files
-- modelled: FramedTx cuts a client's byte stream into frames; a TX frame becomes a TxJob; Async
-- submits it to TxWorker, whose TxQueue holds at most eight jobs; the worker's thread takes the
-- job and TxExecutor sends it, after listening for a free channel where the job asks for that;
-- TxOutcome turns what the radio reports into the status byte of a result; Completion carries the
-- result back to the main thread and to the ClientSlot that the job came from, whose OutputQueue
-- keeps what the socket does not take at once. A raw client's bytes are cut into packets by DataTx
-- instead. RadioSend puts a packet on the radio and TxStatus tells clients of it; Reception sends what
-- the radio hears to the slots of raw and framed clients; RadioCad probes the channel. ConfigStream
-- cuts the configuration socket's bytes into lines, and ConfigDispatch answers each:
-- ConfigStatus recognises reports and runtime setters; all else is a command that ConfigParser reads,
-- ConfigValidate judges by the rules of ConfigPolicy with the numbers of ConfigValue, and ConfigApply
-- sets the radio to. ConfigReplay keeps what was applied for UsbWait's re-init of an adapter that was
-- lost.
--
-- Which file models which part (paths below loraham_daemon/, operations under the code's names
-- without their prefix):
--   Frame         framed_data.cpp: the wire format of frames, encoders and the header's decoder
--   FramedTx      framed_data_tx.cpp: the parser `feed_state` with its state between two reads
--   OutputQueue   client_output_queue.cpp: `append`, `consume`, `flush_fd` on the pending bytes
--   TxOutcome     tx_result.h, daemon_tx_outcome.h: the conversions of outcomes
--   TxJob         daemon_tx_job.h: a job, its result and their initialisers
--   TxQueue       daemon_tx_queue.cpp: the circular array of jobs, `push`, `pop`, `drain`
--   TxExecutor    daemon_tx_executor.cpp: sending, and the loop that listens before it
--   TxWorker      daemon_tx_worker.cpp: the queue with its counters
--   Async         daemon_tx_async_worker.cpp: the worker's thread and the main thread as a step
--                 relation, one step for each section under the lock, and a log of every job beside it
--   ConfigStream  config_stream.cpp: lines of at most 255 bytes, handed to a callback
--   ConfigParser  config_parser.cpp: a line as a SET command with its keys and values
--   ConfigReplay  config_replay.cpp: the settings that are replayed after an adapter came back
--   ConfigValue   config_value.cpp: the strict number parsers, and the interface Floats
--   ConfigPolicy  config_policy.cpp: the ranges of values and the airtime of a packet
--   ConfigValidate config_validate.cpp: the validation of a whole command, with the reason
--   ConfigApply   config_apply.cpp: the pipeline from a line to the driver
--   ConfigStatus  config_status.cpp: recognising the lines that need no radio
--   ConfigDispatch config_dispatch.cpp: a client's lines and their replies
--   ClientSlot    client_slot.cpp: a client, its generation, and the table of clients
--   Completion    daemon_tx_completion.cpp: the ring of results and the delivery to a slot
--   DataTx        data_tx.cpp, radio_tx_limit.cpp, daemon_tx_policy.h and the waiting loop of
--                 daemon_data_tx_runtime.cpp: chunks, the read budget, listening on the main thread
--   RadioSend     daemon_tx.cpp: one packet on the radio
--   TxStatus      daemon_tx.cpp, daemon_monitoring.cpp: the transmission flag and its report, each
--                 atomic operation a step of its own
--   Reception     daemon_rx.cpp: a tick of the receiver, from the flag to the broadcasts
--   RadioCad      radio_cad.cpp and the policy in daemon_monitoring.h: probes of the channel
--   UsbWait       daemon_usb_wait.cpp: the state machine of an adapter that is lost and comes back
--   RxRearm       daemon_rx_rearm.cpp: retrying reception, and giving the radio up
-- Base has the shared vocabulary and Ring the circular array that TxQueue and Completion use.
--
-- Numbers are native naturals. Where the code's type wraps within reach the reduction is written out
-- (uint32_t ticks and generations, the bytes of a 16-bit word); counters of type size_t and uint64_t
-- are not made to wrap. float and double are the operations of the record Floats, a parameter, so that
-- what is stated of values holds of whatever the machine computes; strtol and strtoul are written out
-- for a 64-bit long. Pointers that the callers never pass as NULL are plain values; a pointer or
-- callback that may be NULL is an Option. Callbacks act on a state type of their own. The sockets are
-- the list of what the calls of send() answer. The thread's executor and the flush of a socket are
-- loops that wait for the environment: they run on fuel, or on the list of answers, and a theorem
-- states how much is enough (Async uses any result that the executor can give). The loop of TxStatus
-- gets as much as its generations differ, and `drain` one unit more than jobs wait; their theorems show
-- that this suffices.
--
-- Not modelled: the radio drivers and their library, the USB and GPIO access, locks between
-- processes, sockets and signals, logging and the clock; and, for now, the event loop and the texts of
-- the reports. The drivers are parameters of RadioSend, Reception, RadioCad and ConfigApply, and what
-- the probe of GET CHANNEL makes of the driver is one of ConfigDispatch; the rounding of signal values
-- is outside the model.
pub mod ConfigValue
pub mod Base
pub mod Ring
pub mod Frame
pub mod FramedTx
pub mod OutputQueue
pub mod TxOutcome
pub mod TxJob
pub mod TxQueue
pub mod TxExecutor
pub mod TxWorker
pub mod Async
pub mod ConfigStream
pub mod ConfigParser
pub mod ConfigReplay
pub mod ConfigPolicy
pub mod ConfigValidate
pub mod ConfigApply
pub mod ConfigStatus
pub mod ConfigDispatch
pub mod ClientSlot
pub mod Completion
pub mod DataTx
pub mod RadioSend
pub mod TxStatus
pub mod UsbWait
pub mod RxRearm
pub mod RadioCad
pub mod Reception
