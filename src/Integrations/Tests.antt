-- ===== src/Integrations/Tests.antt =====
-- The registry on small inputs, and each theorem at a concrete one.
use tito_os.Prelude.{
  false, refl, true, List, map, All, ◌==◌, ℕ, ◌+◌, String, [], ◌∷◌, Option, none, some, ◌≡◌, nat_eq,
  if◌then◌else◌,
}
use tito_os.Errors.{
  not_advertised, unknown_operation, err, call_failed, broken_pipe, Result, ok, Error, custom,
}
use tito_os.Message.{Value, null}
use tito_os.Strings.{
  before, partition, concat, lower, upper, strip, strip_left, backwards, ends_with, strip_dots,
}
use tito_os.Dict
use tito_os.Dict.{Dict}
use tito_os.Integrations.Allowlist.{normalized_entries, normalize_allowlist}
use tito_os.Integrations.Http.{
  Url, Http, Reply, redirected, answered, matches, any_match, host_of, check, follow, request,
  prepare, perform, getting, requesting, get_url, with_query, merge,
}
use tito_os.Integrations.Http.Allowed.{IsSafe, perform-IsSafe}
use tito_os.Integrations.Shell.Running.{
  Child, Intake, exited, taken, run, feed, reap, ends_within, completed, result_of, served,
  unflushed, stuck, left_behind,
}
use tito_os.Integrations.Clock.{
  Clock, plus, minus, sleep_each, total, moved, IsBounded, sleep_each-frozen,
}
use tito_os.Integrations.Proxy.{proxy_attribute, proxy_call}
use tito_os.Integrations.Shell.{
  insert, sorted, is_bare, resolve_names, resolve_allowlist, Shell, make_shell, Settings,
  default_env, Command, words, resolve, fresh_reader, read_all, reader_text, written, keep, joined,
}
use tito_os.Integrations.Shell.Capture.{reader_text-read_all}
use tito_os.Integrations.Shell.Programs.{IsListed, resolve-IsListed}
use tito_os.Integrations.{Integration, Registry, call, call_named}
use tito_os.Integrations.Closing.{IsGuarded, call_named-IsGuarded}

-- the device counts; closing it fails at 2
abbrev close_counter : ℕ → Option Error × ℕ
close_counter n = if nat_eq n 2 then (some (custom 2), 0) else (none, 0)

abbrev perform_counter : ℕ → String → Value → Result Value × ℕ
perform_counter n operation arguments = (ok arguments, n + 1)

abbrev counter : String → ℕ → Integration ℕ
counter name n = record { name = name; operations = "tick" ∷ []; device = n }

abbrev drivers : Registry ℕ
drivers = ("a", counter "a" 1) ∷ ("b", counter "b" 2) ∷ ("c", counter "c" 3) ∷ []

call_named-IsGuarded_example :
    IsGuarded "b" "close" drivers (call_named perform_counter "b" "close" null drivers).1
call_named-IsGuarded_example = call_named-IsGuarded perform_counter "b" "close" null drivers

-- a URL that is its own host in front of a query, under https
abbrev split_sample : String → Option Url
split_sample url = some (record {
  scheme = "HTTPS";
  netloc = before "?" url;
  hostname = some (before "?" url);
  path = "/";
  query = (partition "?" url).1;
  fragment = "top";
})

abbrev web : Http
web = record {
  name = "http";
  allowed_hosts = ".example.com" ∷ [];
  timeout = 10;
  max_bytes = 100;
  headers = ("X-Api-Key", "k") ∷ [];
}

-- a URL is put together as its host and its query
abbrev join_sample : Url → String
join_sample url = concat url.netloc (if url.query == "" then "" else concat "?" url.query)

abbrev hops : List Reply
hops = redirected "api.example.com" true ∷ redirected "evil.test" true ∷ answered 200 5 ∷ []

hops_stop :
    (perform split_sample join_sample web (getting "example.com" (some "q=1") none) hops
      ≡ (err (call_failed "http" "request"), "example.com?q=1" ∷ "api.example.com" ∷ []))
    × (prepare split_sample join_sample web "post" "example.com"
          (some "{}")
          (some (("X-Api-Key", "j") ∷ ("A", "b") ∷ []))
        ≡ ok (record {
          method = "POST";
          url = "example.com";
          body = some "{}";
          headers = ("X-Api-Key", "j") ∷ ("A", "b") ∷ [];
        }))
unfolding perform get_url with_query request prepare follow check any_match matches host_of lower
    upper ends_with backwards strip_dots merge Dict.set before partition
hops_stop = (refl, refl)

perform-IsSafe_example :
    IsSafe split_sample join_sample web
      (perform split_sample join_sample web (requesting "get" "example.com" none none) hops)
perform-IsSafe_example =
    perform-IsSafe split_sample join_sample web (requesting "get" "example.com" none none) hops

abbrev shell : Shell
shell = record {
  name = "shell";
  allowed_commands = "git" ∷ [];
  executables = ("git", "/usr/bin/git") ∷ [];
  cwd = none;
  timeout = 30;
  env = default_env;
  max_output = 10;
}

abbrev shell_settings : Settings
shell_settings = record { name = none; cwd = none; timeout = 30; env = none; max_output = 10 }

abbrev asked : Command
asked = words ("Git" ∷ "log; rm" ∷ [])

-- a program that writes twelve characters, here numbers, and ends after three units of time
abbrev popen_sample : List String → Option String → Dict String → Option (Child ℕ)
popen_sample argv cwd env = some (record {
  output = (1 ∷ 2 ∷ 3 ∷ 4 ∷ 5 ∷ 6 ∷ 7 ∷ []) ∷ (8 ∷ 9 ∷ 10 ∷ 11 ∷ 12 ∷ []) ∷ [];
  errors = [];
  ends_after = some 3;
  code = exited 0;
  intake = taken 1;
})

ran_asked :
    (run popen_sample shell asked (some "in") (some 1) false ≡ (
      some (err (call_failed "shell" "run")),
      some (record { input = some "in"; input_closed = true; killed = true; waited = true }),
    ))
    × ((run popen_sample shell asked none none true).0
        ≡ some (
            ok (record {
              command = "/usr/bin/git" ∷ "log; rm" ∷ [];
              returncode = exited 0;
              stdout = 1 ∷ 2 ∷ 3 ∷ 4 ∷ 5 ∷ 6 ∷ 7 ∷ 8 ∷ 9 ∷ 10 ∷ [];
              stderr = [];
            })))
unfolding run resolve is_bare lower Dict.get feed reap ends_within completed result_of reader_text
    read_all keep joined served
ran_asked = (refl, refl)

-- a child that neither reads on nor ends, and one that ends without reading
abbrev popen_with : Option ℕ → Intake → List String → Option String → Dict String → Option (Child ℕ)
popen_with ends_after intake argv cwd env =
    some (record {
      output = [];
      errors = [];
      ends_after = ends_after;
      code = exited 0;
      intake = intake;
    })

fed_badly :
    ((run (popen_with none stuck) shell asked (some "in") (some 2) false).0 ≡ none)
    × ((run (popen_with (some 9) (unflushed 4)) shell asked (some "in") (some 2) false).0
        ≡ some (err broken_pipe))
unfolding run resolve is_bare lower Dict.get feed served left_behind
fed_badly = (refl, refl)

abbrev frozen : Clock
frozen = record { name = "clock"; max_sleep = 5; fixed = some 100; elapsed = 1; host_time = 70 }

sleep_each-frozen_example :
    ((sleep_each (plus 3 ∷ minus 0 ∷ plus 9 ∷ []) frozen).1
      ≡ moved (total (sleep_each (plus 3 ∷ minus 0 ∷ plus 9 ∷ []) frozen).0) frozen)
    × All (IsBounded 5) (sleep_each (plus 3 ∷ minus 0 ∷ plus 9 ∷ []) frozen).0
sleep_each-frozen_example = sleep_each-frozen (plus 3 ∷ minus 0 ∷ plus 9 ∷ []) frozen 100 refl

reader_text-read_all_example :
    reader_text {A = ℕ} (read_all ((1 ∷ 2 ∷ []) ∷ (3 ∷ 4 ∷ []) ∷ [] ∷ []) (fresh_reader 3))
    ≡ 1 ∷ 2 ∷ 3 ∷ []
unfolding written
reader_text-read_all_example = reader_text-read_all 3 ((1 ∷ 2 ∷ []) ∷ (3 ∷ 4 ∷ []) ∷ [] ∷ [])

abbrev which_sample : String → Option String
which_sample name = if name == "git" then some "/usr/bin/git" else none

made_shell : make_shell which_sample (λ d. false) (" git" ∷ []) shell_settings ≡ ok shell
unfolding make_shell normalize_allowlist normalized_entries resolve_allowlist resolve_names sorted
    insert is_bare lower strip strip_left backwards Dict.set
made_shell = refl

resolved_asked : resolve shell asked ≡ ok ("/usr/bin/git" ∷ "log; rm" ∷ [])
unfolding resolve is_bare lower Dict.get
resolved_asked = refl

resolve-IsListed_example :
    (program : String) × (arguments : List String) × (executable : String) × (asked
      ≡ words (program ∷ arguments))
    × ("/usr/bin/git" ∷ "log; rm" ∷ [] ≡ executable ∷ arguments)
    × (is_bare program ≡ true)
    × IsListed which_sample (map strip (map strip (" git" ∷ []))) (lower program) executable
resolve-IsListed_example =
    resolve-IsListed which_sample (λ d. false) (" git" ∷ []) shell_settings shell asked _ made_shell
      resolved_asked

-- a proxy reaches the driver for what is advertised, and for nothing else
proxied :
    (proxy_attribute perform_counter (counter "a" 1) "tick" null ≡ (ok null, counter "a" 2))
    × (proxy_attribute perform_counter (counter "a" 1) "close" null
        ≡ (err (not_advertised "a" "close"), counter "a" 1))
    × (proxy_call perform_counter (counter "a" 1) "close" null
        ≡ (err (unknown_operation "a" "close"), counter "a" 1))
unfolding proxy_attribute proxy_call call
proxied = (refl, refl, refl)
