-- ===== src/Power/Sampler/Kept.antt =====
-- Statements on how a call ends, and what holds of a sample because it holds of what a sample does.
use glm5_3_flash_2x_dgx_spar.Prelude.{
  ℕ, Bool, true, false, List, [], ◌∷◌, ◌++◌, Result, ok, err, ◌>>=◌, Bool-cases, inl, inr,
}
use glm5_3_flash_2x_dgx_spar.Number.{Float}
use glm5_3_flash_2x_dgx_spar.Text.{Text}
use glm5_3_flash_2x_dgx_spar.Power.Markers.{read_marker_lines}
use glm5_3_flash_2x_dgx_spar.Power.Sampler.{
  PhaseName, Line, marked, System, Run, Sampler, Halt, raised, unfinished, Step, written,
  after_batch, time, keep_line, read_collectors, mark_all, poll_markers, one_sample,
}

-- `P` of what is returned, `E` of the run when it raises, `U` where the rounds are used up
pub data Ends {F W A : Type 0} (P : A → Type 0) (E : Run F W → Type 0) (U : Type 0)
    : Result (Halt F W) A → Type 0 where
  returns : (a : A) → P a → Ends P E U (ok a)
  raises : (s : Run F W) → E s → Ends P E U (err (raised s))
  stops : U → Ends P E U (err unfinished)

module _ {F W : Type 0} where
  pub Ends-bind :
      {A B : Type 0} {P : A → Type 0} {Q : B → Type 0} {E : Run F W → Type 0} {U : Type 0}
      (x : Result (Halt F W) A) (next : A → Result (Halt F W) B)
      → Ends P E U x
      → ((a : A) → P a → Ends Q E U (next a))
      → Ends Q E U (x >>= next)
  Ends-bind x next (returns a h) rest = rest a h
  Ends-bind x next (raises s h) rest = raises s h
  Ends-bind x next (stops h) rest = stops h

  -- with other statements that follow
  pub Ends-map :
      {A : Type 0} {P Q : A → Type 0} {E G : Run F W → Type 0} {U : Type 0}
      (x : Result (Halt F W) A)
      → ((a : A) → P a → Q a)
      → ((s : Run F W) → E s → G s)
      → Ends P E U x
      → Ends Q G U x
  Ends-map x f g (returns a h) = returns a (f a h)
  Ends-map x f g (raises s h) = raises s (g s h)
  Ends-map x f g (stops h) = stops h

  -- of two statements, the first, with the second on the rounds
  pub Ends-both :
      {A : Type 0} {P Q : A → Type 0} {E G : Run F W → Type 0} {U V : Type 0}
      (x : Result (Halt F W) A)
      → Ends P E U x
      → Ends Q G V x
      → Ends P E V x
  Ends-both x (returns a h) k = returns a h
  Ends-both x (raises s h) k = raises s h
  Ends-both x (stops h) (stops k) = stops k

  pub written-Ends :
      {P : Run F W → Type 0} {U : Type 0} (b : Bool × W) (s : Run F W)
      → P (record s { world = b.1 })
      → Ends P P U (written b s)
  written-Ends (true, w) s h = returns _ h
  written-Ends (false, w) s h = raises _ h

module _ {F W : Type 0} ⦃f : Float F⦄ (sys : System F W) (c : Sampler F) where
  -- a relation between a run and a later one, which everything in a sample keeps
  pub record IsStable (Rel : Run F W → Run F W → Type 0) : Type 0 where
    pub same : (s : Run F W) → Rel s s
    pub trans : {s r q : Run F W} → Rel s r → Rel r q → Rel s q
    pub samples : (k : ℕ) (s : Run F W) → Rel s (after_batch (sys.sample k s.world) s)
    pub looks :
        (s : Run F W) (offset : ℕ)
        → Rel s (record s { world = (sys.look s.world).1; markers_offset = offset })
    pub lines :
        (l : Line F) (s : Run F W)
        → Rel s (record s { world = (sys.write l s.world).1; records = s.records ++ l ∷ [] })

  module _ {Rel : Run F W → Run F W → Type 0} (stable : IsStable Rel) where
    read_collectors-Rel : (ks : List ℕ) (s : Run F W) → Rel s (read_collectors sys c ks s).1
    unfolding read_collectors
    read_collectors-Rel [] s = stable.same s
    read_collectors-Rel (k ∷ ks) s =
        stable.trans (stable.samples k s)
          (read_collectors-Rel ks (after_batch (sys.sample k s.world) s))

  module _ {Rel : Run F W → Run F W → Type 0} (stable : IsStable Rel) {U : Type 0} where
    keep_line-Ends : (l : Line F) (s : Run F W) → Ends (Rel s) (Rel s) U (keep_line sys c l s)
    keep_line-Ends l s = written-Ends (sys.write l s.world) _ (stable.lines l s)

    -- from a later run on
    after :
        {s r : Run F W} (x : Step F W)
        → Rel s r
        → Ends (Rel r) (Rel r) U x
        → Ends (Rel s) (Rel s) U x
    after x h e = Ends-map x (λ a. stable.trans h) (λ a. stable.trans h) e

    mark_all-Ends :
        (phase : PhaseName) (labels : List Text) (s : Run F W)
        → Ends (Rel s) (Rel s) U (mark_all sys c phase labels s)
    unfolding mark_all
    mark_all-Ends phase [] s = returns s (stable.same s)
    mark_all-Ends phase (label ∷ labels) s =
        Ends-bind _ _ (keep_line-Ends (marked phase (time sys c s) label) s)
          (λ r h. after _ h (mark_all-Ends phase labels r))

    module _ (decode : List ℕ → Text) where
      poll_markers-Ends :
          (phase : PhaseName) (s : Run F W)
          → Ends (Rel s) (Rel s) U (poll_markers sys c decode phase s)
      unfolding poll_markers
      poll_markers-Ends phase s =
          let found = read_marker_lines decode (sys.look s.world).0 s.markers_offset in
          elim (Bool-cases c.has_markers) [
            | inr e ↦ rw e (returns s (stable.same s))
            | inl e ↦ rw e (after _ (stable.looks s found.1) (mark_all-Ends phase found.0 _))
          ]

      pub one_sample-Ends :
          (phase : PhaseName) (s : Run F W)
          → Ends (Rel s) (Rel s) U (one_sample sys c decode phase s)
      unfolding one_sample
      one_sample-Ends phase s =
          let found = read_collectors sys c c.collectors s in
          after _ (read_collectors-Rel stable c.collectors s) (
            Ends-bind _ _ (keep_line-Ends _ found.1) (λ r h. after _ h (poll_markers-Ends phase r)))
