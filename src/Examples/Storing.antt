-- ===== src/Examples/Storing.antt =====
-- Objects that hold results, at concrete programs.
use libral.Base.{String, none, List, [], ◌∷◌, ok, throws, undefined, ◌≡◌, refl, inl, inr}
use libral.Storage.Program.{
  Store, Op, from_value, from_error, copied, move_from, copy_assign, move_assign, error_assign,
  destroy, run_all,
}
use libral.Storage.{Object}
use libral.Storage.Refinement.{Outcome, Holds, steps, run_all-steps}

-- Nothing is left of what is moved.
abbrev moved_text : String → String
moved_text s = ""

abbrev nothing : Store (Outcome String)
nothing a = none

abbrev no_objects : Store (Object String)
no_objects a = none

-- A result is copied, the copy is turned into an error and back, assigned to itself, and moved.
abbrev program : List (Op String)
program =
    from_value 0 "tmp"
    ∷ copied 1 0
    ∷ error_assign 1 "no space"
    ∷ move_assign 1 0
    ∷ copy_assign 1 1
    ∷ move_from 2 1
    ∷ destroy 0
    ∷ []

run_all-steps_example :
    (s' : Store (Object String)) × (run_all moved_text moved_text program no_objects ≡ ok s')
    × Holds (steps moved_text moved_text program nothing) s'
unfolding steps libral.Storage.Refinement.step libral.Storage.Program.write
run_all-steps_example =
    run_all-steps moved_text moved_text program nothing no_objects
      (
        refl,
        (
          (refl, (inr "tmp", refl)),
          (
            (inr "tmp", refl),
            (
              ((inl "no space", refl), (inr "tmp", refl)),
              (
                ((inr "tmp", refl), (inr "tmp", refl)),
                ((refl, (inr "tmp", refl)), ((inr "tmp", refl), tt)),
              ),
            ),
          ),
        ),
      )
      (λ a. refl)

-- Destroying a result twice is undefined.
destroyed_twice :
    run_all moved_text moved_text (from_error 0 "e" ∷ destroy 0 ∷ destroy 0 ∷ []) no_objects
    ≡ throws undefined
unfolding run_all libral.Storage.Program.run libral.Storage.Program.write libral.Storage.destruct
destroyed_twice = refl
