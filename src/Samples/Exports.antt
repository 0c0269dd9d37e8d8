-- ===== src/Samples/Exports.antt =====
-- An export of audit/src/audit_impl.c on a disk that keeps its files.
use hwrun_os_linux.Prelude.{
  ◌≡◌, refl, true, false, Bool, [], ◌∷◌, ◌++◌, Option, none, some, Bytes, codes, length, arith,
  str_eq, if◌then◌else◌, fit, inr, Bytes-discrete,
}
use hwrun_os_linux.Errno.{ok}
use hwrun_os_linux.Audit.Config.{Store}
use hwrun_os_linux.Audit.Log.{Disk, Log, ops_query}
use hwrun_os_linux.Audit.Export.{Sink, ops_export_events}
use hwrun_os_linux.Audit.Export.Written.{Keeps, IsListing, ops_export_events-IsWritten}

abbrev Files : Type 0
Files = Bytes → Option Bytes

abbrev put_file : Files → Bytes → Option Bytes → Files
put_file f p text = λ x. if str_eq x p then text else f x

put_file_there : (f : Files) (p : Bytes) (text : Option Bytes) → put_file f p text p ≡ text
put_file_there f p text = ground arith

abbrev added : Files → Bytes → Bytes → Option Bytes → Files × Bool
added f p b none = (f, false)
added f p b (some old) = (put_file f p (some (old ++ b)), true)

abbrev disk : Disk Files
disk = record {
  mkdir = λ f p. (f, ok);
  open_append = λ f p. (f, ok);
  size = λ f p. inr 0;
  append = λ f p b. (f, true);
  rename = λ f a b. (f, ok);
  unlink = λ f p. (f, ok);
  truncate = λ f p. (f, ok);
  read = λ f p. f p;
}

abbrev sink : Sink Files
sink = record {
  create = λ f p. (put_file f p (some []), ok);
  write = λ f p b. added f p b (f p);
  close = λ f p. (f, true);
  remove = λ f p. put_file f p none;
}

added-keeps :
    (f : Files) (p old b : Bytes) (there : Option Bytes)
    → there ≡ some old
    → (added f p b there).0 p ≡ some (old ++ b)
added-keeps f p old b none e = absurd (ground arith)
added-keeps f p old b (some text) e = ground (arith, put_file_there f p (some (text ++ b)))

sink-Keeps : Keeps disk sink
sink-Keeps = record {
  created = λ f p h. put_file_there f p (some []);
  written = λ f p old b there h. added-keeps f p old b (f p) there;
  closed = λ f p old there h. there;
}

abbrev log_text : Bytes
log_text = codes "7|1700000000|alice|login||0|" ++ 10 ∷ []

abbrev settings : Store
settings = record { dir = codes "/log"; max_bytes = 1048576; max_files = 1; next_seq = 8 }

-- The main segment holds one line.
abbrev one_event : Log Files
one_event = record {
  store = settings;
  disk = put_file (λ x. none) (codes "/log/audit.log") (some log_text);
}

one_exported : (ops_export_events disk sink 10 none (some (codes "/out")) one_event).1 ≡ ok
unfolding ops_export_events Bytes-discrete fit
one_exported = refl

one_counted : (ops_export_events disk sink 10 none (some (codes "/out")) one_event).2 ≡ some 1
unfolding ops_export_events Bytes-discrete fit
one_counted = refl

ops_export_events-IsWritten_example :
    let out = ops_export_events disk sink 10 none (some (codes "/out")) one_event in
    let asked = ops_query disk 10 none one_event in
    (asked.1 ≡ ok)
    × (((text : Bytes) × (IsListing asked.2 text
            × (disk.read out.0.disk (codes "/out") ≡ some text)))
        × (out.2 ≡ some (length asked.2)))
ops_export_events-IsWritten_example =
    ops_export_events-IsWritten disk sink sink-Keeps 10 none (codes "/out") one_event one_exported
