-- ===== src/Supervisor/Tasks/Moments.antt =====
-- What holds of the children at every moment: between any two steps of the task, where a client's
-- request may see them.
use wintermute_platform.Prelude.{List, [], ◌∷◌, Pairs, Pairs-trans, sym, subst}
use wintermute_platform.Spawn.{Spawner}
use wintermute_platform.Supervisor.{Machine}
use wintermute_platform.Supervisor.Slots.{names, IsDistinct, Pairs-names}
use wintermute_platform.Supervisor.Control.Requests.{muted_by, with_muted, dispatch-muted_by}
use wintermute_platform.Supervisor.Tasks.{Pc, task_step, Turn, task, client, take_turn, take_turns}
use wintermute_platform.Supervisor.Tasks.Course.{CourseMove, CourseMove-trans}
use wintermute_platform.Supervisor.Tasks.Due.{IsDue, still, task_step-Goes}

module _ {W : Type 0} (spawner : Spawner W) where
  -- The turns from a moment at which the names are distinct and the slots are as the task found
  -- them.
  pub take_turns-CourseMove :
      (turns : List Turn) (pc : Pc) (m : Machine W)
      → IsDistinct (names m.view.children)
      → IsDue pc m.view.children
      → Pairs CourseMove m.view.children (take_turns spawner turns (pc, m)).1.view.children
  unfolding take_turns take_turn
  take_turns-CourseMove [] pc m d due = still m.view.children
  take_turns-CourseMove (task clock ∷ later) pc m d due =
      let (pc', m') = task_step spawner clock pc m in
      let (moves, due') = task_step-Goes spawner clock pc m d due in
      let same = Pairs-names CourseMove (λ c e h. h.0) _ _ moves in
      Pairs-trans CourseMove CourseMove-trans _ _ _ moves
        (take_turns-CourseMove later pc' m' (subst IsDistinct same d) due')
  take_turns-CourseMove (client host req ∷ later) pc m d due =
      subst
        (λ v.
          Pairs CourseMove m.view.children
            (take_turns spawner later (pc, record m { view = v })).1.view.children)
        (sym (dispatch-muted_by host req m.view))
        (take_turns-CourseMove later pc
          (record m { view = with_muted (muted_by req m.view.muted) m.view }) d due)
