-- ===== src/Bench/Planning.antt =====
-- From the options to the plan of a run, and the dry run.
use glm5_3_flash_2x_dgx_spar.Prelude.{
  ℕ, Bool, not, Option, none, some, List, [], ◌∷◌, ◌++◌, Result, ok, ◌>>=◌, if◌then◌else◌,
}
use glm5_3_flash_2x_dgx_spar.Text.{Text, codes}
use glm5_3_flash_2x_dgx_spar.Bench.Env.{Env, lookup}
use glm5_3_flash_2x_dgx_spar.Bench.Arms.{Arm}
use glm5_3_flash_2x_dgx_spar.Bench.Metrics.{is_empty}
use glm5_3_flash_2x_dgx_spar.Bench.Specs.{Benchmark, name_of, BenchArgs}
use glm5_3_flash_2x_dgx_spar.Bench.Urls.{artifact_path}
use glm5_3_flash_2x_dgx_spar.Bench.Results.{BenchFailure}
use glm5_3_flash_2x_dgx_spar.Bench.System.{System}
use glm5_3_flash_2x_dgx_spar.Bench.Commands.{join_path, benchmark_argv}
use glm5_3_flash_2x_dgx_spar.Bench.Protocol.{Plan}

-- the options of the command line
pub record MainArgs (F : Type 0) : Type 0 where
  pub list_benches : Bool
  pub dry_run : Bool
  pub arm : List Text
  pub bench : List Text
  pub workdir : Text
  pub api_key : Option Text
  -- `--out` and `--markdown`, empty where they are not given
  pub out : Text
  pub markdown : Text
  pub run : BenchArgs F

-- what `main` takes from pathlib, the interpreter and git
pub record Host : Type 0 where
  pub expand_user : Text → Text
  pub is_absolute : Text → Bool
  pub parent : Text → Text
  pub name : Text → Text
  pub stem : Text → Text
  pub suffix : Text → Text
  pub with_suffix : Text → Text → Text
  pub cwd : Text
  pub repo_root : Text
  pub python : Text
  pub environ : Env
  pub stamp : Text
  -- `git_info()`, its `dirty` and its `dirty_count`
  pub dirty : Bool
  pub dirty_count : Text

-- a line of the dry run: the arm, the benchmark, its command
pub record Planned : Type 0 where
  pub arm : Text
  pub bench : Benchmark
  pub argv : Option (List Text)

-- `a or b`, of texts
abbrev or_text : Text → Text → Text
or_text [] b = b
or_text (c ∷ cs) b = c ∷ cs

abbrev text_or_empty : Option Text → Text
text_or_empty none = []
text_or_empty (some t) = t

module _ {F W : Type 0} (sys : System F W) (host : Host) where
  unfoldable pub resolve_workdir : Text → W → Text
  resolve_workdir raw w =
      let path = host.expand_user raw in
      let here = join_path host.cwd path in
      let repo = join_path host.repo_root path in
      if host.is_absolute path
      then path
      else if sys.is_file (join_path here (codes "start.sh")) w
      then here
      else if sys.is_file (join_path repo (codes "start.sh")) w
      then repo
      else here

module _ (host : Host) where
  artifact_dir_for : Text → Text
  artifact_dir_for out =
      if is_empty (host.suffix out)
      then join_path (host.parent out) (host.name out ++ codes "-artifacts")
      else join_path (host.parent out) (host.stem out)

  key_of : Option Text → Text
  key_of (some key) = key
  key_of none =
      or_text (text_or_empty (lookup (codes "VLLM_API_KEY") host.environ))
        (text_or_empty (lookup (codes "API_KEY") host.environ))

  unfoldable pub out_path : {F : Type 0} → MainArgs F → Text → Text
  out_path args workdir =
      if is_empty args.out
      then join_path (join_path workdir (codes "results"))
          (codes "ab-" ++ (host.stamp ++ codes ".json"))
      else host.expand_user args.out

  unfoldable pub markdown_path : {F : Type 0} → MainArgs F → Text → Text
  markdown_path args out =
      if not (is_empty args.markdown)
      then host.expand_user args.markdown
      else if is_empty (host.suffix out)
      then join_path (host.parent out) (host.name out ++ codes ".md")
      else host.with_suffix out (codes ".md")

  -- the plan that `main` runs, once its options are accepted
  unfoldable pub plan_of : {F : Type 0} → MainArgs F → ℕ → List Benchmark → Text → Plan F
  unfolding key_of out_path artifact_dir_for
  plan_of args polls benches workdir = record {
    args = args.run;
    benches = benches;
    workdir = workdir;
    tests_dir = join_path workdir (codes "tests");
    out_dir = artifact_dir_for (out_path args workdir);
    api_key = key_of args.api_key;
    python = host.python;
    environ = host.environ;
    polls = polls;
  }

module _ {F W : Type 0} (sys : System F W) where
  -- the loop over the benchmarks of `print_dry_run`
  plan_benches : Plan F → Text → List Benchmark → Result BenchFailure (List Planned)
  plan_benches p arm [] = ok []
  plan_benches p arm (b ∷ bs) =
      benchmark_argv sys b (record {
        args = p.args;
        artifact_path = artifact_path p.out_dir arm (name_of b);
        tests_dir = p.tests_dir;
        workdir = p.workdir;
        api_key = p.api_key;
        python = p.python;
      })
      >>= λ argv.
          plan_benches p arm bs >>= λ rest. ok (record { arm = arm; bench = b; argv = argv } ∷ rest)

  unfoldable pub print_dry_run : Plan F → List Arm → Result BenchFailure (List Planned)
  unfolding plan_benches
  print_dry_run p [] = ok []
  print_dry_run p (arm ∷ arms) = plan_benches p arm.name p.benches >>= λ lines.
      print_dry_run p arms >>= λ rest. ok (lines ++ rest)
