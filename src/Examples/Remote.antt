-- ===== src/Examples/Remote.antt =====
-- Requests to a remote file system, and a remote disk whose rename needs a free name.
use file_server_management.Prelude.{
  ◌≡◌, ◌≢◌, refl, ap, ◌∙◌, Bool, true, false, List, [], ◌∷◌, ◌++◌, Option, none, some, arith,
}
use file_server_management.Text.{Text, txt, text_eq, has_prefix}
use file_server_management.FilePath.{render, join, clean, is_abs, split_slash, walk}
use file_server_management.Sftp.{
  SftpFs, SftpClient, remote_request, remote_join, sftp_atomic_write, sftp_move,
}
use file_server_management.Sftp.NewFile.{IsSftp, MadeOrKept, sftp_atomic_write-MadeOrKept}
use file_server_management.Sftp.Moved.{IsSftpMove, MovedOrKept, sftp_move-MovedOrKept}
use file_server_management.Os.{Bytes, Source}
use file_server_management.Examples.Disk.{Files, content, put, put-same, put-other}

abbrev remote : SftpFs
remote = record {
  addr = txt "files:22";
  user = txt "u";
  password = [];
  private_key = [];
  base_root = txt "/srv/files";
}

abbrev appended : Text → Bytes → Option Bytes → Files → Bool × Files
appended t b none w = (false, w)
appended t b (some old) w = (true, put t (some (old ++ b)) w)

-- Only a free name can be given to a file.
abbrev moved_free : Text → Text → Option Bytes → Option Bytes → Files → Bool × Files
moved_free a b (some x) none w = (true, put b (some x) (put a none w))
moved_free a b (some x) (some y) w = (false, w)
moved_free a b none y w = (false, w)

abbrev client : SftpClient Files
client = record {
  mkdir_all = λ d w. (true, w);
  open_empty = λ t w. (true, put t (some []) w);
  write = λ t b w. appended t b (w t) w;
  chmod = λ t m w. (true, w);
  rename = λ a b w. moved_free a b (w a) (w b) w;
  open_file = λ p w. elim (w p) [ none ↦ none | some b ↦ some (b, true) ];
  remove = λ t w. (true, put t none w);
}

appended_to :
    (t : Text) (b : Bytes) (o : Option Bytes) (w : Files) (old : Bytes)
    → o ≡ some old
    → (appended t b o w).1 t ≡ some (old ++ b)
appended_to t b o w old e = rw e (put-same t (some (old ++ b)) w)

appended-others :
    (t : Text) (b : Bytes) (o : Option Bytes) (w : Files) (p : Text)
    → p ≢ t
    → (appended t b o w).1 p ≡ w p
appended-others t b none w p n = refl
appended-others t b (some old) w p n = put-other t (some (old ++ b)) w p n

moved_free-moves :
    (a b : Text) (w : Files) (x : Bytes) (o y : Option Bytes)
    → (moved_free a b o y w).0 ≡ true
    → o ≡ some x
    → (y ≡ none)
      × ((moved_free a b o y w).1 b ≡ some x)
      × ((p : Text) → p ≢ a → p ≢ b → (moved_free a b o y w).1 p ≡ w p)
moved_free-moves a b w x none y done e = absurd (cc done)
moved_free-moves a b w x (some z) (some y) done e = absurd (cc done)
moved_free-moves a b w x (some z) none done e = (
  refl,
  put-same b (some z) (put a none w) ∙ e,
  λ p n m. put-other b (some z) (put a none w) p m ∙ put-other a none w p n,
)

moved_free-fails :
    (a b : Text) (w : Files) (o y : Option Bytes)
    → (moved_free a b o y w).0 ≡ false
    → (p : Text) → (moved_free a b o y w).1 p ≡ w p
moved_free-fails a b w none y failed p = refl
moved_free-fails a b w (some z) (some y) failed p = refl
moved_free-fails a b w (some z) none failed p = absurd (cc failed)

client-IsSftp : IsSftp client content
client-IsSftp = record {
  mkdir_keeps = λ d w p. refl;
  open_empties = λ t w done. put-same t (some []) w;
  open_others = λ t w p n. put-other t (some []) w p n;
  write_appends = λ t b w old done e. appended_to t b (w t) w old e;
  write_others = λ t b w p n. appended-others t b (w t) w p n;
  chmod_keeps = λ t m w p. refl;
  rename_moves = λ a b w x done e. moved_free-moves a b w x (w a) (w b) done e;
  rename_fails = λ a b w failed p. moved_free-fails a b w (w a) (w b) failed p;
}

abbrev parts : List Text
parts = txt "a" ∷ []

abbrev no_files : Files
no_files p = none

temp_differs : txt "/srv/files/b" ≢ remote_join remote parts ++ txt ".tmp-" ++ txt "1"
unfolding remote_join remote_request join clean is_abs split_slash walk render text_eq has_prefix
temp_differs = ground arith

sftp_atomic_write-MadeOrKept_example :
    MadeOrKept client content
      (remote_join remote parts)
      (7 ∷ [])
      no_files
      (txt "/srv/files/b")
      (sftp_atomic_write client remote 420 (txt "1") (7 ∷ [], true) parts no_files)
sftp_atomic_write-MadeOrKept_example =
    sftp_atomic_write-MadeOrKept client content client-IsSftp remote 420 (txt "1") (7 ∷ []) true
      parts no_files (txt "/srv/files/b") temp_differs

whole_read :
    (o : Option Bytes) (src : Source)
    → elim o [ none ↦ none | some b ↦ some (b, true) ] ≡ some src
    → o ≡ some src.0
whole_read none src e = absurd (cc e)
whole_read (some b) src e = ap some (ap (λ q. elim q [ none ↦ b | some r ↦ r.0 ]) e)

moved_free-takes :
    (a b : Text) (w : Files) (o y : Option Bytes)
    → a ≢ b
    → (moved_free a b o y w).0 ≡ true
    → (moved_free a b o y w).1 a ≡ none
moved_free-takes a b w none y ne done = absurd (cc done)
moved_free-takes a b w (some z) (some y) ne done = absurd (cc done)
moved_free-takes a b w (some z) none ne done =
    put-other b (some z) (put a none w) a ne ∙ put-same a none w

client-IsSftpMove : IsSftpMove client content
client-IsSftpMove = record {
  reads = λ a w src e ended. whole_read (w a) src e;
  rename_takes = λ a b w ne done. moved_free-takes a b w (w a) (w b) ne done;
  removes = λ a w done. put-same a none w;
  remove_others = λ a w p n. put-other a none w p n;
  remove_fails = λ a w failed. absurd (cc failed);
}

-- The new name is taken, so the file is copied.
abbrev two_files : Files
two_files = put (txt "/srv/files/a") (some (7 ∷ [])) (put (txt "/srv/files/b") (some []) no_files)

abbrev other_parts : List Text
other_parts = txt "b" ∷ []

names_differ : remote_join remote parts ≢ remote_join remote other_parts
unfolding remote_join remote_request join clean is_abs split_slash walk render text_eq has_prefix
names_differ = ground arith

file_a : two_files (remote_join remote parts) ≡ some (7 ∷ [])
unfolding remote_join remote_request join clean is_abs split_slash walk render text_eq has_prefix
file_a = refl

sftp_move-MovedOrKept_example :
    MovedOrKept client content
      (remote_join remote parts)
      (remote_join remote other_parts)
      (7 ∷ [])
      two_files
      (sftp_move client remote parts other_parts two_files)
sftp_move-MovedOrKept_example =
    sftp_move-MovedOrKept client content client-IsSftp client-IsSftpMove remote parts other_parts
      (7 ∷ []) two_files names_differ file_a
