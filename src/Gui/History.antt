-- ===== src/Gui/History.antt =====
-- The reports that the GUI keeps, and the kernel that it drives.
use tito_os.Prelude.{
  ℕ, ◌≤◌, Bool, true, false, List, [], ◌∷◌, ◌++◌, ◌≡◌, refl, leb, length, arith, String, not, ◌||◌,
  if◌then◌else◌,
}
use tito_os.Errors.{Result, ok, err, refused, ticks_out_of_range}
use tito_os.Message.{Value, null, bool, int, text, arr, obj, opaque, Message}
use tito_os.Bus
use tito_os.Bus.{MessageBus}
use tito_os.Dict.{Dict}
use tito_os.Agent.{Program}
use tito_os.Kernel.{Kernel}
use tito_os.Kernel.Tick.{TickReport}
use tito_os.Kernel.Tick
use tito_os.Kernel.Run
use tito_os.Kernel.Soundness.{IsSound, Grows-send, same_agents-IsSound}
use tito_os.Kernel.Settlement.{step-IsSound}
use tito_os.Kernel.Enduring.{run-IsSound}
use tito_os.Gui.{
  KernelGui, last, recorded, with_kernel, stepped, ran_all, sent_or, send_to, recipient_of,
  metadata_of, max_run_ticks, gui_step, gui_run, gui_send,
}

length-last : {A : Type 0} (n : ℕ) (xs : List A) → length (last n xs) ≤ n
unfolding last
length-last n [] = omega arith
length-last n (x ∷ xs) = ground (arith, length-last n xs)

-- the end of a list that fits is the list, and a longer one loses its first elements
last_fits : {A : Type 0} (n : ℕ) (xs : List A) → length xs ≤ n → last n xs ≡ xs
unfolding last
last_fits n [] h = refl
last_fits n (x ∷ xs) h = ground arith

-- The history of the GUI holds no more reports than it was made for, and the kernel is sound.
pub record IsKept {P : Program} (gui : KernelGui P) : Type 0 where
  pub bounded : length gui.reports ≤ gui.history
  pub sound : IsSound gui.kernel

module _ {P : Program} where
  recorded-IsKept :
      (reports : List TickReport) (gui : KernelGui P)
      → IsSound gui.kernel
      → IsKept (recorded reports gui)
  recorded-IsKept reports gui s = record {
    bounded = length-last gui.history (gui.reports ++ reports);
    sound = s;
  }

  -- Running a tick from the GUI, or a run, or posting a message keeps the history within its bound
  -- and the kernel sound, whatever the client sent and whether the operation succeeds.
  pub gui_step-IsKept :
      (schedule : List ℕ) (gui : KernelGui P) → IsKept gui → IsKept (gui_step schedule gui).1
  unfolding gui_step
  gui_step-IsKept schedule gui kept =
      by_result (Tick.step schedule gui.kernel) (step-IsSound schedule gui.kernel kept.sound)
    where
      by_result : (r : Result TickReport × Kernel P) → IsSound r.1 → IsKept (stepped gui r).1
      by_result (ok report, k) s = recorded-IsKept (report ∷ []) (with_kernel gui k) s
      by_result (err e, k) s = record { bounded = kept.bounded; sound = s }

  pub gui_run-IsKept :
      (ticks : Value) (schedules : List (List ℕ)) (gui : KernelGui P)
      → IsKept gui
      → IsKept (gui_run ticks schedules gui).1
  unfolding gui_run
  gui_run-IsKept (int negative n) schedules gui kept =
      by_range (negative || not (leb n max_run_ticks))
    where
      by_result : (r : Result (List TickReport) × Kernel P) → IsSound r.1 → IsKept (ran_all gui r).1
      by_result (ok reports, k) s = recorded-IsKept reports (with_kernel gui k) s
      by_result (err e, k) s = record { bounded = kept.bounded; sound = s }

      by_range :
          (b : Bool)
          → IsKept
              (if b
                then (err (refused ticks_out_of_range), gui)
                else ran_all gui (Run.run n schedules gui.kernel)).1
      by_range true = kept
      by_range false =
          by_result (Run.run n schedules gui.kernel) (run-IsSound n schedules gui.kernel kept.sound)
  gui_run-IsKept null schedules gui kept = kept
  gui_run-IsKept (bool b) schedules gui kept = kept
  gui_run-IsKept (text s) schedules gui kept = kept
  gui_run-IsKept (arr items) schedules gui kept = kept
  gui_run-IsKept (obj fields) schedules gui kept = kept
  gui_run-IsKept (opaque n) schedules gui kept = kept

  pub gui_send-IsKept :
      (to payload metadata : Value) (gui : KernelGui P)
      → IsKept gui
      → IsKept (gui_send to payload metadata gui).1
  unfolding gui_send
  gui_send-IsKept to payload metadata gui kept = by_parts (recipient_of to) (metadata_of metadata)
    where
      by_bus :
          (m : Message) (r : Result MessageBus)
          → Bus.send m gui.kernel.bus ≡ r
          → IsKept (sent_or gui m r).1
      by_bus m (ok bus) e = record {
        bounded = kept.bounded;
        sound =
            same_agents-IsSound gui.kernel (record gui.kernel { bus = bus }) refl
              (Grows-send m gui.kernel.bus bus e) kept.sound;
      }
      by_bus m (err e) h = kept

      by_parts : (r : Result String) (d : Result (Dict Value)) → IsKept (send_to payload gui r d).1
      by_parts (err e) d = kept
      by_parts (ok name) (err e) = kept
      by_parts (ok name) (ok d) = by_bus _ (Bus.send _ gui.kernel.bus) refl
