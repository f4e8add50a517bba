-- ===== src/Lib.antt =====
-- Verification of the decision logic of the GLM-5.3-Flash serving recipes.
--
-- The repository serves one model in two ways, SGLang/NVFP4 and vLLM/EXL3. Most of its Python is
-- measurement and supervision around the two servers, and patches of vLLM. Six parts decide
-- something by their own logic, and are modelled here:
--
-- AdaptiveK: `_Glm53AdaptiveK`, the class that vllm-exl3/overlay/patch_adaptive_k.py inserts into
--   vLLM's scheduler. It shortens the speculative drafts of a batch by what the requests accepted
--   before. AdaptiveK has the policy (`Policy` is the object's state), `observe`, `choose`, the
--   widths of `_margin_width` and `_pos_width`, and `_count`; AdaptiveK/Reload has `__init__` and
--   `_reload`, the latter over one look at the override file (`OverrideFile`); AdaptiveK/Apply has
--   `apply` and `batch_k`. Exceptions are an error value, and the policy that `apply` leaves behind
--   is returned with it, so that the state after a raised exception is the one of the code.
--   Choices, Warmup, Sound, Reload/Sizes and the modules under Apply hold the proofs.
--
-- Watchdog: vllm-exl3/scripts/prefill-watchdog.py, the program that reports a drop of the prefill
--   throughput. Watchdog/Patterns and Watchdog/Metrics parse one Prometheus scrape,
--   Watchdog/Observations makes intervals of cumulative counters, Watchdog/Series compares the
--   recent window with the median of the values before it, Watchdog/Logs reads the end of the log,
--   Watchdog/Sources puts these together for each source, and Watchdog/Main is `main` after the
--   options are parsed, down to the report and the exit code. Files and the network are a `World`
--   of answers. Two notions of exception are kept apart, `WatchdogError`, which `main` catches, and
--   those which it does not: the `ValueError`s of the analysis, and what a scrape, or the wait before
--   it, may raise besides.
--
-- Power: tools/bench-power.py, the sampler of a machine's power. Power/Markers reads the file of
--   markers, Power/Stats has the percentile and the statistics of a series, Power/Energy the
--   energy of points and of a counter, Power/Samples the records of the sampling loop by device, and
--   Power/Summary puts these together as `summarize_phase` does. Power/Sampler is the class
--   `Sampler` with its loop, over operations on a world that may raise, Power/Child ends the child
--   of a run (`_terminate_group`), and Power/Wrap has `run_wrap` and `run_watch`, from the first
--   event to the end of the `finally` clause.
--
-- Bench: vllm-exl3/scripts/bench-ab.py, the A/B benchmark of a server under two or more
--   environments. Bench/Env and Bench/Arms have the environments and the arms of a run, Bench/Specs
--   the registered benchmarks and the checks of the options, Bench/Commands the command of each
--   client, Bench/Urls addresses and file names, and Bench/Planning goes from the options to the plan
--   and the dry run. Bench/System is the interface to the outside, the operations of a world `W` that
--   is passed along: HTTP, clocks, files, processes. Bench/Http has the requests, Bench/Probe the
--   identity of a boot, Bench/Secrets what is blotted out of logs, Bench/Clients one benchmark of an
--   arm, and Bench/Run is `run_arm`, a chain of stages that ends at the first failure with what was
--   recorded until then. Bench/Json and Bench/Metrics extract samples from a client's artifact,
--   Bench/Stats and Bench/Comparison compare the arms, Bench/Boots and Bench/Messages have the
--   warnings, and Bench/Main is `main` down to the exit status.
--
-- Exl3: vllm-exl3/overlay/exl3.py, where it decides without computing on a GPU. Exl3/Tiers resolves
--   the tier of the fat kernels, Exl3/Stats keeps the counters of the routing, Exl3/Shards cuts
--   a tensor for the ranks, Exl3/Routing maps global experts to local ones, and Exl3/Launches decides
--   which launches and fallbacks a layer gets, and which rows of the buffer that is sorted by expert
--   each of them is given. Tensors are lists.
--
-- Overlay: the patches under vllm-exl3/overlay whose inserted code decides something. Overlay/Workspace
--   has the sizing of the indexer's workspace, the check of the builder and the splitter that uses the
--   workspace (patch_indexer_workspace.py), Overlay/Sites and Overlay/Edits how that patch rewrites
--   a file, Overlay/TailSlots the clamp of block numbers (patch_kpool_tail_slotmap.py),
--   Overlay/DecodeFloor the cap of prefills beside decodes (patch_scheduler_decode_floor.py),
--   Overlay/AlignFloor the truncation of a chunk (patch_align_floor.py), Overlay/NoStore the flag
--   against storing a prefix (patch_apc_no_store.py), and Overlay/Retention the intervals of the groups
--   (patch_apc_per_group_retention.py and the eagle groups of patch_hybrid_prefix_hit.py).
--   Configurations and requests are records of what is read of them.
--
-- Number has Python's `float` as an interface: no IEEE arithmetic is at hand, so the definitions take
-- the operations as a parameter, and the few theorems that need facts about them take `IsOrdered`
-- (comparison is transitive and total on finite numbers, and a midpoint of positive numbers is not
-- below the smaller one). Number/Fixed has thousandths as an instance, on which the tests run.
-- Text has the string methods in use, on lists of code points, and Text/Regex a backtracking matcher
-- for the patterns. Prelude has lists, dictionaries and results.
--
-- Bounds and fuel: `tail_loop` in Watchdog/Logs runs on fuel, the length of the file, and every
-- round reads at least one byte of it. Repetitions in Text/Regex run on the length of the rest of
-- the text. `wait_for_health` in Bench/Http runs on a number of polls, and where time passes the
-- rounds before its deadline are enough. The loops of Power/Sampler and Power/Child run on fuel
-- too, and are `unfinished` where it is used up; where time passes, a loop with a deadline needs no
-- more rounds than are left before it. The splitter in Overlay/Workspace has a round for each
-- request, since each takes one, and as many pieces of a chunk as it has query tokens, since each
-- piece has one. All other loops follow the structure of their lists.
--
-- Not modelled: argument parsing, the layout of printed output, of Markdown and of JSON, the chat
-- client of vllm-exl3/tests/bench_cache_sessions.py, what git says of the tree, the collectors, the
-- chart and the files of the power sampler's results, and, in the watchdog, credentials and the
-- length of the wait between scrapes. `\d`, `\w` and letter cases are those of ASCII, and integers in texts
-- have no underscores. The CUDA kernels, the shell scripts, the patches that only replace text in
-- vLLM or whose code stands on vLLM's classes, and the other benchmarks are outside this library.
pub mod AdaptiveK
pub mod Bench
pub mod Exl3
pub mod Number
pub mod Overlay
pub mod Power
pub mod Prelude
pub mod Text
pub mod Watchdog
