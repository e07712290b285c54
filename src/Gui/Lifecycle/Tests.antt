-- ===== src/Gui/Lifecycle/Tests.antt =====
-- Interleavings of the threads of a GUI, and each theorem at a concrete one.
use tito_os.Prelude.{true, false, none, some, List, [], ◌∷◌, ◌≡◌, refl}
use tito_os.Gui.Lifecycle.{
  caller, looping, entering, read, fresh_life, start, enter, leave, stop_reads, stop_closes,
  stop_ends, serve_forever, Event, starts, calls, enters, reads, closes, leaves, ends, dies, away,
  idle, thread_ends, happen, happen_all,
}
use tito_os.Gui.Lifecycle.Quiet.{IsQuiet}
use tito_os.Gui.Lifecycle.Stopped.{happen_all-IsQuiet}

-- The caller serves before the thread of `start` does, and `stop` has read what there is.
abbrev crossed : List Event
crossed = starts ∷ calls ∷ enters caller ∷ reads ∷ closes ∷ []

crossed_waits : happen_all crossed fresh_life ≡ record {
  has_thread = true;
  stopped = true;
  serving = true;
  serve_thread = some caller;
  started_thread = entering;
  calling_thread = looping;
  caller_over = false;
  stop = read (some caller) true;
  is_closed = false;
}
unfolding happen_all happen start serve_forever enter leave stop_reads stop_closes stop_ends
crossed_waits = refl

happen_all-IsQuiet_example : IsQuiet (happen_all crossed fresh_life)
happen_all-IsQuiet_example = happen_all-IsQuiet crossed

-- `stop` waits for the end of the thread that it read, then releases the port.
abbrev waited : List Event
waited = leaves caller ∷ closes ∷ dies ∷ closes ∷ ends ∷ []

crossed_stops : (happen_all waited (happen_all crossed fresh_life)) ≡ record {
  has_thread = false;
  stopped = true;
  serving = false;
  serve_thread = none;
  started_thread = entering;
  calling_thread = away;
  caller_over = true;
  stop = idle;
  is_closed = true;
}
unfolding happen_all happen start serve_forever enter leave stop_reads stop_closes stop_ends
    thread_ends
crossed_stops = refl
