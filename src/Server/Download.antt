-- ===== src/Server/Download.antt =====
-- The loop that streams a file to a gRPC client.
use file_server_management.Prelude.{
  ◌≡◌, ◌⊎◌, inl, inr, refl, ap, ◌∙◌, subst, Bool, true, false, List, [], ◌∷◌, ◌++◌, append-nil,
  append_assoc,
}
use file_server_management.Server.{
  Bytes, Read, more, last, broken, Ending, finished, read_failed, send_failed, download_loop,
  send_chunk,
}

abbrev pub concat : List Bytes → Bytes
concat [] = []
concat (c ∷ cs) = c ++ concat cs

-- A reader that answers some reads and ends with `final`, every chunk being delivered.
abbrev pub reads_to : List Bytes → Read → List (Read × Bool)
reads_to [] final = (final, true) ∷ []
reads_to (c ∷ cs) final = (more c, true) ∷ reads_to cs final

send_chunk-concat :
    (c : Bytes) (r : List Bytes × Ending) → concat (send_chunk c true r).0 ≡ c ++ concat r.0
send_chunk-concat [] r = refl
send_chunk-concat (b ∷ bs) r = refl

send_chunk-ending : (c : Bytes) (r : List Bytes × Ending) → (send_chunk c true r).1 ≡ r.1
send_chunk-ending [] r = refl
send_chunk-ending (b ∷ bs) r = refl

-- If every chunk is delivered, the client gets what the reader gave, in order and with nothing
-- left out, up to the end of the file, and the call ends without an error.
download_loop-content :
    (cs : List Bytes) (c : Bytes)
    → (concat (download_loop (reads_to cs (last c))).0 ≡ concat cs ++ c)
      × ((download_loop (reads_to cs (last c))).1 ≡ finished)
unfolding download_loop
download_loop-content [] c = (rw (send_chunk-concat c) (append-nil c), send_chunk-ending c _)
download_loop-content (d ∷ cs) c =
    let (data_, ending) = download_loop-content cs c in
    (rw (send_chunk-concat d, data_, ← append_assoc), rw (send_chunk-ending d) ending)

-- A read error ends the call with that error, after what was read before it has been sent.
pub download_loop-broken :
    (cs : List Bytes) (c : Bytes)
    → (concat (download_loop (reads_to cs (broken c))).0 ≡ concat cs ++ c)
      × ((download_loop (reads_to cs (broken c))).1 ≡ read_failed)
unfolding download_loop
download_loop-broken [] c = (rw (send_chunk-concat c) (append-nil c), send_chunk-ending c _)
download_loop-broken (d ∷ cs) c =
    let (data_, ending) = download_loop-broken cs c in
    (rw (send_chunk-concat d, data_, ← append_assoc), rw (send_chunk-ending d) ending)

-- What a reader gives up to the first read that is its last.
abbrev pub content_of : List (Read × Bool) → Bytes
content_of [] = []
content_of ((more c, delivered) ∷ reads) = c ++ content_of reads
content_of ((last c, delivered) ∷ reads) = c
content_of ((broken c, delivered) ∷ reads) = c

-- What is sent is the first part of some content, and all of it if the loop does not stop at a
-- chunk that cannot be sent.
abbrev pub IsPrefix : List Bytes × Ending → Bytes → Type 0
IsPrefix (sent, ending) whole =
    (rest : Bytes) × (concat sent ++ rest ≡ whole) × ((ending ≡ send_failed) ⊎ (rest ≡ []))

send_chunk-IsPrefix :
    (c : Bytes) (delivered : Bool) (r : List Bytes × Ending) (whole : Bytes)
    → IsPrefix r whole
    → IsPrefix (send_chunk c delivered r) (c ++ whole)
send_chunk-IsPrefix [] delivered r whole p = p
send_chunk-IsPrefix (b ∷ bs) false r whole p = (b ∷ bs ++ whole, refl, inl refl)
send_chunk-IsPrefix (b ∷ bs) true r whole (rest, split, full) =
    (rest, append_assoc (b ∷ bs) (concat r.0) rest ∙ ap (λ t. b ∷ bs ++ t) split, full)

-- Whatever the reader answers and whichever chunks cannot be delivered: what DownloadObject has
-- sent is a first part of what was read, in order and without a gap, and all of it unless the loop
-- has ended at a chunk that could not be sent.
pub download_loop-IsPrefix :
    (reads : List (Read × Bool)) → IsPrefix (download_loop reads) (content_of reads)
unfolding download_loop
download_loop-IsPrefix [] = ([], refl, inr refl)
download_loop-IsPrefix ((more c, delivered) ∷ reads) =
    send_chunk-IsPrefix c delivered _ _ (download_loop-IsPrefix reads)
download_loop-IsPrefix ((last c, delivered) ∷ reads) =
    subst (IsPrefix (send_chunk c delivered ([], finished))) (append-nil c)
      (send_chunk-IsPrefix c delivered ([], finished) [] ([], refl, inr refl))
download_loop-IsPrefix ((broken c, delivered) ∷ reads) =
    subst (IsPrefix (send_chunk c delivered ([], read_failed))) (append-nil c)
      (send_chunk-IsPrefix c delivered ([], read_failed) [] ([], refl, inr refl))
