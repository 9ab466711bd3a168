-- ===== src/Tests/Socket.antt =====
-- The socket file: the removal of a stale one, and the mask under which one is made.
use shimux.Base.{
  if◌then◌else◌, Bytes, str, equal, is, equal_refl, equal-false, ℕ, ◌≡◌, refl, Bool, true, false,
  not, none, some, arith,
}
use shimux.Agent.Socket.{Sockets, clean_stale_socket}
use shimux.Agent.Socket.Cleaned.{Cleaned, SocketLaws, clean_stale_socket-Cleaned}
use shimux.Agent.Server.{Listening, listen_and_serve}
use shimux.Agent.Server.Masked.{MaskLaws, Asked, listen_and_serve-Asked}
use shimux.Tests.World.{refused}

-- The files that are there; nothing answers at any of them.
abbrev Files : Type 0
Files = Bytes → Bool

abbrev sockets : Sockets Files
sockets = record {
  is_missing = λ path w. (not (w path), w);
  dial_timeout = λ path ms w. (some refused, w);
  close_conn = λ w. w;
  remove = λ path w. (none, λ q. if equal q path then false else w q);
}

abbrev exists : Bytes → Files → Bool
exists path w = w path

absent : (b : Bool) → not b ≡ true → b ≡ false
absent b h = ground arith

socket_laws : SocketLaws sockets exists
socket_laws = record {
  stat_keeps = λ path w q. refl;
  stat_right = λ path w h. absent (w path) h;
  dialled = λ path ms w q. refl;
  conn_closed = λ w q. refl;
  removed = λ path w. (rw (equal_refl path) refl, λ q n. rw (equal-false q path n) refl);
}

abbrev left_behind : Files
left_behind path = is path "/tmp/s"

clean_stale_socket-Cleaned_example :
    Cleaned sockets exists
      (str "/tmp/s")
      left_behind
      (clean_stale_socket sockets (str "/tmp/s") left_behind).1
      (clean_stale_socket sockets (str "/tmp/s") left_behind).0
clean_stale_socket-Cleaned_example =
    clean_stale_socket-Cleaned sockets exists socket_laws (str "/tmp/s") left_behind

-- The file is removed, with no error.
cleaned : (clean_stale_socket sockets (str "/tmp/s") left_behind).0 ≡ none
unfolding clean_stale_socket equal
cleaned = refl

-- A world that is the mask; the socket cannot be had.
abbrev listening : Listening ℕ
listening = record {
  make_dirs = λ path mode w. (none, w);
  umask = λ m w. (w, m);
  listen = λ path w. (some refused, w);
  serve = λ w. w;
}

mask_laws : MaskLaws listening (λ w. w)
mask_laws = record {
  dirs_made = λ path mode w. refl;
  old_mask = λ m w. refl;
  new_mask = λ m w. refl;
  listened = λ path w. refl;
  served = λ w. refl;
}

listen_and_serve-Asked_example :
    ((listen_and_serve listening (str "/tmp/s") 0o022).1 ≡ 0o022)
    × Asked listening
        (λ w. w)
        (str "/tmp/s")
        0o022
        (listen_and_serve listening (str "/tmp/s") 0o022).0
listen_and_serve-Asked_example =
    listen_and_serve-Asked listening (λ w. w) mask_laws (str "/tmp/s") 0o022
