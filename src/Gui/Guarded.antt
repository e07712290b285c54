-- ===== src/Gui/Guarded.antt =====
-- The handler of POST requests: what it accepts, and that it keeps the GUI's invariant.
use tito_os.Prelude.{
  ℕ, String, Bool, true, false, List, [], ◌∷◌, Option, none, some, ◌≡◌, refl, ◌⊎◌, inl, inr,
  Bool-cases, not, ◌==◌, if◌then◌else◌, elem, leb,
}
use tito_os.Strings.{before}
use tito_os.Errors.{Result, ok, err}
use tito_os.Message.{Value, Fields}
use tito_os.Agent.{Program}
use tito_os.Kernel.Run.{this_tick}
use tito_os.Gui.{KernelGui, max_body, host_allowed}
use tito_os.Gui.Requests.{
  Request, Response, Answer, respond, report, ran, posted, refusal, is_json, origin_allowed,
  read_body, body_of, answer_with, operate, with_body, do_post,
}
use tito_os.Gui.History.{IsKept, gui_step-IsKept, gui_run-IsKept, gui_send-IsKept}

abbrev pub post_paths : List String
post_paths = "/api/step" ∷ "/api/run" ∷ "/api/send" ∷ []

read_body-law :
    (length : Option ℕ) (body : Option Value)
    → ((n : ℕ) × (length ≡ some n) × (leb n max_body ≡ true))
      ⊎ ((response : Response) × (read_body length body ≡ inr response)
          × (leb 400 response.status ≡ true)
          × (leb response.status 415 ≡ true))
read_body-law none body = inr (_, refl, refl, refl)
read_body-law (some n) body = elim (Bool-cases (leb n max_body)) [
  | inl small ↦ inl (n, refl, small)
  | inr large ↦ inr (respond 413 (refusal "invalid body length"), rw large refl, refl, refl)
]

module _ {P : Program} where
  -- A request that may drive the kernel.
  pub record IsAuthorized (request : Request) (gui : KernelGui P) : Type 0 where
    pub host : host_allowed request.host gui ≡ true
    pub path : elem (before "?" request.path) post_paths ≡ true
    pub json : is_json request.content_type ≡ true
    pub origin : origin_allowed request.origin gui ≡ true
    pub small : (n : ℕ) × (request.length ≡ some n) × (leb n max_body ≡ true)

  abbrev pub IsRefused : KernelGui P → Response × KernelGui P → Type 0
  IsRefused gui (response, gui') =
      (gui' ≡ gui) × (leb 400 response.status ≡ true) × (leb response.status 415 ≡ true)

  -- A POST request is refused with a status from 400 to 415 and changes nothing, unless it names a
  -- host that the GUI answers to, one of the three paths, a JSON body of at most 64 KiB, and, if it
  -- has an origin, one that is `http` and such a host.
  pub do_post-IsAuthorized :
      (request : Request) (schedules : List (List ℕ)) (gui : KernelGui P)
      → IsAuthorized request gui ⊎ IsRefused gui (do_post request schedules gui)
  unfolding do_post body_of
  do_post-IsAuthorized request schedules gui = elim (Bool-cases (host_allowed request.host gui)) [
    | inr foreign ↦ inr (rw (foreign, do_post) (refl, refl, refl))
    | inl host ↦ elim (Bool-cases (elem (before "?" request.path) post_paths)) [
      | inr elsewhere ↦ inr (rw (host, elsewhere, do_post) (refl, refl, refl))
      | inl path ↦ elim (Bool-cases (is_json request.content_type)) [
        | inr other ↦ inr (rw (host, path, other, do_post, body_of) (refl, refl, refl))
        | inl json ↦ elim (Bool-cases (origin_allowed request.origin gui)) [
          | inr cross ↦ inr (rw (host, path, json, cross, do_post, body_of) (refl, refl, refl))
          | inl origin ↦ elim (read_body-law request.length request.body) [
            | inl small ↦
                inl
                  (record { host = host; path = path; json = json; origin = origin; small = small })
            | inr (response, e, low, high) ↦
                inr (rw (host, path, json, origin, e, do_post, body_of) (refl, low, high))
          ]
        ]
      ]
    ]
  ]

  answer_with-IsKept :
      {A : Type 0} (f : A → Answer) (r : Result A × KernelGui P)
      → IsKept r.1
      → IsKept (answer_with f r).1
  answer_with-IsKept f (ok a, gui) kept = kept
  answer_with-IsKept f (err e, gui) kept = kept

  either-IsKept :
      (b : Bool) (r r' : Response × KernelGui P)
      → IsKept r.1
      → IsKept r'.1
      → IsKept (if b then r else r').1
  either-IsKept true r r' h h' = h
  either-IsKept false r r' h h' = h'

  operate-IsKept :
      (path : String) (fs : Fields) (schedules : List (List ℕ)) (gui : KernelGui P)
      → IsKept gui
      → IsKept (operate path fs schedules gui).1
  operate-IsKept path fs schedules gui kept =
      either-IsKept (path == "/api/step") _ _
        (answer_with-IsKept report _ (gui_step-IsKept (this_tick schedules) gui kept))
        (either-IsKept (path == "/api/run") _ _
          (answer_with-IsKept (λ r. ran r.0 r.1) _ (gui_run-IsKept _ schedules gui kept))
          (answer_with-IsKept posted _ (gui_send-IsKept _ _ _ gui kept)))

  with_body-IsKept :
      (path : String) (schedules : List (List ℕ)) (gui : KernelGui P) (body : Fields ⊎ Response)
      → IsKept gui
      → IsKept (with_body path schedules gui body).1
  with_body-IsKept path schedules gui (inl fs) kept = operate-IsKept path fs schedules gui kept
  with_body-IsKept path schedules gui (inr response) kept = kept

  -- Whatever is posted, the GUI keeps no more tick reports than its history and its kernel is sound.
  pub do_post-IsKept :
      (request : Request) (schedules : List (List ℕ)) (gui : KernelGui P)
      → IsKept gui
      → IsKept (do_post request schedules gui).1
  unfolding do_post
  do_post-IsKept request schedules gui kept =
      either-IsKept (not (host_allowed request.host gui))
        (respond 403 (refusal "host not allowed"), gui) _ kept
        (either-IsKept (not (elem (before "?" request.path) post_paths))
          (respond 404 (refusal "not found"), gui)
          (with_body (before "?" request.path) schedules gui (body_of request gui)) kept
          (with_body-IsKept (before "?" request.path) schedules gui (body_of request gui) kept))
