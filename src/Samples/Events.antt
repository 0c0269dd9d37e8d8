-- ===== src/Samples/Events.antt =====
-- Runs of audit/src/audit_impl.c on a disk that loses every file.
use hwrun_os_linux.Prelude.{
  ℕ, ◌+◌, ◌≡◌, ◌≢◌, refl, true, false, List, [], ◌∷◌, Option, none, some, Bytes, codes, length,
  arith, pos, negsuc, ℤ, inr,
}
use hwrun_os_linux.Errno.{ok}
use hwrun_os_linux.Audit.Query.{Event, Query}
use hwrun_os_linux.Audit.Line.{fmt_line, parse_event}
use hwrun_os_linux.Audit.Line.RoundTrip.{IsLogged, parse_event-fmt_line}
use hwrun_os_linux.Audit.Config.{Store, hw_audit_configure}
use hwrun_os_linux.Audit.Config.Bounds.{IsBounded, Configured, hw_audit_configure-Configured}
use hwrun_os_linux.Audit.Log.{Disk, Log, ops_query}
use hwrun_os_linux.Audit.Numbers.{append_all, count_from, append_all-count_from}
use hwrun_os_linux.Audit.Selected.{Answers, ops_query-Answers}

abbrev login : Event
login = record {
  seq = 7;
  ts = pos 1700000000;
  result = negsuc 12;
  subject = codes "alice";
  action = codes "login|ssh";
  target = [];
  detail = codes "wrong password";
}

login-IsLogged : IsLogged login
login-IsLogged = record {
  seq = (omega arith, omega arith);
  ts = (1700000000, refl, omega arith);
  result = refl;
  subject = omega arith;
  action = omega arith;
  target = omega arith;
  detail = omega arith;
}

parse_event-fmt_line_example :
    (line : Bytes) × (fmt_line 4096 login ≡ some line) × (parse_event line ≡ some login)
parse_event-fmt_line_example = parse_event-fmt_line login login-IsLogged

abbrev settings : Store
settings = record { dir = codes "/log"; max_bytes = 1048576; max_files = 3; next_seq = 5 }

settings-IsBounded : IsBounded settings
settings-IsBounded = record {
  max_bytes = (omega arith, omega arith);
  max_files = (omega arith, omega arith);
  dir = omega arith;
}

hw_audit_configure-Configured_example :
    Configured settings
      (hw_audit_configure settings (some (codes "audit.log.max_bytes")) (some (codes "64k")))
hw_audit_configure-Configured_example =
    hw_audit_configure-Configured settings (some (codes "audit.log.max_bytes")) (some (codes "64k"))
      settings-IsBounded

abbrev lossy : Disk ℕ
lossy = record {
  mkdir = λ f path. (f, ok);
  open_append = λ f path. (f, ok);
  size = λ f path. inr f;
  append = λ f path line. (f + length line, true);
  rename = λ f from to. (0, ok);
  unlink = λ f path. (f, ok);
  truncate = λ f path. (0, ok);
  read = λ f path. none;
}

abbrev log : Log ℕ
log = record { store = settings; disk = 0 }

abbrev events : List (ℤ × Option Event)
events = (pos 1, some login) ∷ (pos 2, none) ∷ (pos 3, some login) ∷ []

append_all-count_from_example :
    append_all lossy log events ≡ count_from 5 (length (append_all lossy log events))
append_all-count_from_example = append_all-count_from lossy events log (omega arith) (omega arith)

abbrev query : Query
query = record {
  start_ts = pos 0;
  end_ts = pos 0;
  subject = [];
  action = [];
  result = pos 0;
  result_set = false;
  order = 1;
  limit = 10;
}

ops_query-Answers_example :
    let out = ops_query lossy 100 (some query) log in
    Answers query out.2 × ((out.1 ≢ ok) → out.2 ≡ [])
ops_query-Answers_example = ops_query-Answers lossy 100 query log
