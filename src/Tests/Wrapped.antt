-- ===== src/Tests/Wrapped.antt =====
-- A run of the wrapper over a temporary directory with room for one entry.
use shimux.Base.{
  if◌then◌else◌, Bytes, str, equal, message, exit_error, Result, ok, err, Bool, true, false, not,
  ◌&&◌, ◌||◌, Option, none, some, [], ◌∷◌,
}
use shimux.Base.Int.{pos}
use shimux.Wrapper.Run.{System, Wrapper}
use shimux.Wrapper.Ends.{Ends}
use shimux.Tests.World.{no_manager}

record Temp : Type 0 where
  entries : Bytes → Bool
  links : Bytes → Option Bytes

abbrev new_dir : Bytes
new_dir = str "/tmp/shimux-wrapper-1"

abbrev make : Bool → Temp → Result Bytes × Temp
make true w = (err (message (str "file exists")), w)
make false w = (ok new_dir, record w { entries = λ x. equal x new_dir || w.entries x })

-- The child exits with status 3.
abbrev system : System Temp
system = record {
  process_id = 42;
  executable = ok (str "/usr/bin/shimux");
  environ = str "PATH=/bin" ∷ [];
  path = str "/bin";
  make_temp_dir = λ pattern w. make (w.entries new_dir) w;
  symlink = λ target link w.
      (none, record w { links = λ q. if equal q link then some target else w.links q });
  remove_all = λ dir w. record w { entries = λ x. not (equal x dir) && w.entries x };
  run_child = λ args env w. (some (exit_error (pos 3) (str "exit status 3")), w);
}

abbrev name_of : Result Bytes → Bytes
name_of (ok name) = name
name_of (err e) = []

abbrev empty : Temp
empty = record { entries = λ x. false; links = λ q. none }

abbrev wrapper : Wrapper Temp
wrapper = record {
  controller = record {
    new_window = λ w. (none, w);
    new_tab = λ w. (none, w);
    new_split = λ d w. (none, w);
    goto_split = λ d w. (none, w);
    close_surface = λ w. (none, w);
  };
  manager = no_manager;
  session = str "work";
  tmp_dir = [];
  shimux_path = str "/usr/bin/shimux";
}
