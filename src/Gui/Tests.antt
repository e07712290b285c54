-- ===== src/Gui/Tests.antt =====
-- The GUI on small requests, and each theorem at a concrete one.
use tito_os.Prelude.{false, [], ◌∷◌, some, ◌≡◌, refl, ◌⊎◌, arith}
use tito_os.Strings.{lower, strip, strip_left, backwards, partition, before}
use tito_os.Errors.{ok, refused, ticks_out_of_range}
use tito_os.Dict
use tito_os.Message.{int, text, obj, field, end, is_broadcast}
use tito_os.Message.Codec.{lookup}
use tito_os.Bus
use tito_os.Kernel.Samples.{sample, paused, paused-IsSound}
use tito_os.Gui.{KernelGui, bracket, authority, make_gui, host_allowed, gui_run, gui_send}
use tito_os.Gui.Requests.{
  Request, respond, failure, refusal, posted, is_json, origin_allowed, body_of, do_post,
}
use tito_os.Gui.History.{IsKept}
use tito_os.Gui.Guarded.{IsAuthorized, IsRefused, do_post-IsAuthorized, do_post-IsKept}

abbrev gui : KernelGui sample
gui = record {
  kernel = paused;
  sender = "gui";
  reports = [];
  history = 2;
  allowed_hosts = "127.0.0.1:8000" ∷ "localhost:8000" ∷ "[::1]:8000" ∷ [];
}

hosts :
    make_gui {P = sample} paused "127.0.0.1" "8000" "gui" 2 []
    ≡ ok (record gui { allowed_hosts = "127.0.0.1:8000" ∷ gui.allowed_hosts })
unfolding make_gui authority bracket lower
hosts = refl

abbrev request : Request
request = record {
  path = "/api/send?x=1";
  host = some "LocalHost:8000";
  content_type = "Application/JSON; charset=utf-8";
  origin = some "http://127.0.0.1:8000";
  length = some 40;
  body = some (obj (field "to" (text "boss") (field "payload" (text "hi") end)));
}

-- what the handler computes through
handling_code : Unit {0}
unfolding lower strip strip_left backwards partition before Dict.get Dict.modify is_broadcast
    Bus.send host_allowed gui_run gui_send is_json origin_allowed body_of do_post lookup
handling_code = tt

sends :
    (do_post request [] gui).0
    ≡ respond 200
        (posted (record { sender = "gui"; to = "boss"; payload = text "hi"; metadata = [] }))
unfolding handling_code
sends = refl

abbrev cross : Request
cross = record request { origin = some "http://evil.example" }

cross_refused : do_post cross [] gui ≡ (respond 403 (refusal "cross-origin request refused"), gui)
unfolding handling_code
cross_refused = refl

abbrev long_run : Request
long_run = record request {
  path = "/api/run";
  body = some (obj (field "max_ticks" (int false 10001) end));
}

long_run_refused :
    do_post long_run [] gui ≡ (respond 400 (failure (refused ticks_out_of_range)), gui)
unfolding handling_code
long_run_refused = refl

do_post-IsAuthorized_example : IsAuthorized cross gui ⊎ IsRefused gui (do_post cross [] gui)
do_post-IsAuthorized_example = do_post-IsAuthorized cross [] gui

do_post-IsKept_example : IsKept (do_post request [] gui).1
do_post-IsKept_example =
    do_post-IsKept request [] gui (record { bounded = omega arith; sound = paused-IsSound })
