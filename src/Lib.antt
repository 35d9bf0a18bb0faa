-- ===== src/Lib.antt =====
-- nix-eval-jobs evaluates a Nix expression in parallel: a collector process (src/nix-eval-jobs.cc)
-- hands attribute paths to worker processes (src/worker.cc) over pipes, reads a line of JSON for
-- each, prints the jobs and asks for the children of attribute sets; it keeps the memory of the
-- workers under a budget by killing the largest and evaluating its job again, alone. Aggregate jobs
-- are resolved at the end (src/constituents.cc), and the cache status of derivations is found by a
-- thread of its own (src/cache-status-resolver.cc).
--
-- Files:
--   Prelude          tests on numbers, size_t, lists by native numbers, std::set and std::map
--   Messages         the protocol words of src/worker.hh
--   Json             what the conversions ask of the JSON library; Json/Fields the laws that it keeps
--   Args             MyArgs and parsePositive of src/eval-args.cc with the handlers of the flags, and
--                    validateIncompatibleFlags of src/nix-eval-jobs.cc; Args/Parsed what they accept
--   EvalLog          EvalLogCapture of src/eval-log.cc; EvalLog/Recorded what it records
--   BufferedIo       tryWriteLine and readLine of src/buffered-io.cc; BufferedIo/Written what they
--                    put on a pipe and take off it
--   Drv, Response    the records of src/drv.hh and src/response.hh; Drv/Print and Drv/Parse the
--                    conversions of src/drv.cc, Response/Print those of src/response.cc; Drv/Entries,
--                    Drv/Printed and Drv/RoundTrip the fields of a printed derivation and how it is
--                    read again, Response/RoundTrip the same of a response; Response also
--                    joinAttrPath, and Response/Paths a reader of joined paths
--   Proc             the buffered reader Proc::fill and Proc::popLine, and the reaping of a child,
--                    of src/proc.cc; Proc/Lines the lines it delivers
--   Worker           src/worker.cc, over a record of the operations of Nix's evaluator, in a monad
--                    whose state is the heap and the log capture:
--     Values         forceBoolAttr to processDerivation; Recursion collectAttrsForRecursion
--     Evaluate       select and evaluate; Cycle the test of select; Logged the log of an evaluation,
--                    and that it ends without undefined behaviour
--     Rounds         processJobRequest, worker with what its set-up gives as an argument, and
--                    runWorker of src/nix-eval-jobs.cc; Protocol the answer to a request, Loop all that a worker
--                    says, Received what the collector reads of a round by popLine and parseResponse
--   Constituents     src/constituents.cc: AggregateJob, DependencyCycle and topoSort;
--                    Constituents/Resolve resolveNamedConstituents, Constituents/Picked what it gives
--                    an aggregate; Constituents/Order what the sort owes, Constituents/Visits its
--                    search, Constituents/Sorted the whole sort; Constituents/Rewrite
--                    rewriteAggregates and its helpers, Constituents/Rewritten what they leave;
--                    Constituents/Handle handleConstituents of src/nix-eval-jobs.cc,
--                    Constituents/Reported its branch of a cycle
--   Resolver         src/cache-status-resolver.cc: the caches, the probes and resolveWanted;
--                    Resolver/Walk sortPaths, visitDrv and tryResolve; Resolver/Inbox push, takeInbox
--                    and the body of the thread's loop; Resolver/Caches and Resolver/Status
--                    the theorems
--   Scheduler        class Scheduler of src/nix-eval-jobs.cc:
--     Phase, State   the phases, the mode, the workers and the state, and its small operations
--     Handlers       takeJob, onLine, onResponse, onEof, onKilled, giveBack and what they call
--     Memory         sampleMemory, learn and the choice of the victim
--     Loop           dispatch, readWorker, pollWorkers and run
--     Spec           the transitions that the handlers make, named as in spec/scheduler.qnt, with what
--                    they differ in from that file, and the invariants
--     Invariant      the transitions preserve the invariants; Ledger what they settle and add
--     Safety         every handler makes transitions only and never reaches undefined behaviour:
--                    Handlers a line and the end of a worker, Offer and Dispatch dispatch, Read and
--                    Poll the rest of a turn
--     Correct        the loop from its start
--   Examples         runs at concrete inputs
--
-- State is passed explicitly: a handler takes the state and returns it in `Result`, whose other
-- constructors are the exceptions that the source throws and the undefined behaviour of C++ (a null
-- pointer, an index out of range), so that their absence is a theorem. Output is a list in the
-- state, or the bytes on a pipe. What the operating system and the parser of JSON answer is an
-- argument: `Wire` reads a line as a response, a `Round` holds the answers of poll, read, waitpid and
-- the sizes of the processes for one turn of the collector's loop, and `Answers` those of write,
-- getline, the clock and the allocator for one round of a worker. The evaluator of Nix, its store and nlohmann::json are records of operations; what the
-- theorems rely on of them are the records IsSound, IsLawful and IsText, and Examples has a concrete
-- one of each.
--
-- Bounds and fuel: a size_t is a number below 2 ^ 64 that wraps (`size_t`). The loop over the lines of
-- a buffer has as fuel the length of the buffer and one, since every line shortens it. The depth-first
-- search of topoSort has as fuel the number of jobs and one, since every call that goes on marks a job
-- that was not marked; that the fuel is enough is proved. The walk of visitDrv has its fuel as an
-- argument, since the graph of derivations is in the store. The main loop of the collector and the
-- loop of a worker run once for each round given, and tryWriteLine once for each answer of write(2).
--
-- Not modelled: the libraries (Nix, nlohmann::json, the standard library); the evaluation of the root
-- value and of a flake, prefetchFlake and Drv::fromPackageInfo, which are sequences of calls of Nix;
-- the flags --help, --override-input and --reference-lock-file and the splitting of a command line;
-- messages of the logger and on standard error; the reading of /proc; the threads and their locks; the
-- creation of processes and pipes; and the settings that main makes.
mod Prelude
pub mod Messages
pub mod Json
pub mod Drv
pub mod Response
pub mod Proc
pub mod Args
pub mod EvalLog
pub mod BufferedIo
pub mod Worker
pub mod Constituents
pub mod Resolver
pub mod Scheduler
mod Examples
