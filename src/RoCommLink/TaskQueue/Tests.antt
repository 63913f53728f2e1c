-- ===== src/RoCommLink/TaskQueue/Tests.antt =====
-- The theorems about the task queue at a run of one worker.
use knowledge_acquisition.Prelude.{ℕ, ◌≡◌, refl, arith, true, some, [], ◌∷◌, ◌==◌}
use knowledge_acquisition.RoCommLink.TaskQueue.{
  TaskItem, looking, holding, returned, TaskQueue, new_queue, push_delayed, shutdown, goes, takes,
  calls, returns, pushes, shuts, works, Reaches, start, next,
}
use knowledge_acquisition.RoCommLink.TaskQueue.Drain.{
  in_ran, in_accepted, Conserves, Reaches-Conserves, Reaches-drained,
}

-- The task 7 is pushed at the time 5 with a delay of 10, and the queue is shut down.
abbrev pushed : TaskQueue ℕ
pushed = push_delayed (some 7) 5 10 (new_queue 1)

abbrev task : TaskItem ℕ
task = record { func = some 7; execute_at = 15 }

abbrev closing : TaskQueue ℕ
closing = shutdown pushed

abbrev taken : TaskQueue ℕ
taken = goes 0 (holding (some 7)) (record closing { tasks = [] })

abbrev called : TaskQueue ℕ
called = goes 0 looking (record taken { ran = 7 ∷ [] })

abbrev done : TaskQueue ℕ
done = goes 0 returned called

taken-Reaches : Reaches (new_queue 1) taken
taken-Reaches =
    next closing taken
      (next pushed closing (next (new_queue 1) pushed start (pushes (some 7) 5 10)) shuts)
      (works 0 16 taken (takes [] [] task refl refl tt (omega arith)))

done-Reaches : Reaches (new_queue 1) done
done-Reaches =
    next called done (next taken called taken-Reaches (works 0 17 called (calls 7 refl)))
      (works 0 18 done (returns refl refl refl))

Reaches-Conserves_example : Conserves (λ n. n == 7) taken
Reaches-Conserves_example = Reaches-Conserves (λ n. n == 7) 1 taken taken-Reaches

Reaches-drained_example :
    (done.is_shutdown ≡ true)
    × (in_ran (λ n. n == 7) done.ran ≡ in_accepted (λ n. n == 7) done.accepted)
Reaches-drained_example = Reaches-drained (λ n. n == 7) 1 done done-Reaches (refl, tt) refl
