-- ===== src/Posix/Sample.antt =====
-- A small kernel that shows that what is assumed of the operating system can hold, and that the tests of the
-- transports run. It takes two bytes at a time, after a number of signals.
use com_lib.Posix.{Os, Answer, done, failed, again, interrupted, NativeFrame}
use com_lib.Posix.Lawful.{IsLawful, remove}
use com_lib.Prelude.{
  ℕ, zero, suc, ◌+◌, ◌≤◌, min, List, [], ◌∷◌, ◌++◌, some, length, take, ◌≡◌, refl, arith,
}

-- `waiting` are the data that come in, one entry a call; `frames` the frames in the device.
pub record Kernel : Type 0 where
  pub open_fds : List ℕ
  pub signals : ℕ
  pub sent : List ℕ
  pub waiting : List (List ℕ)
  pub frames : List NativeFrame

abbrev pub new_kernel : Kernel
new_kernel = record { open_fds = 2 ∷ 1 ∷ 0 ∷ []; signals = 1; sent = []; waiting = []; frames = [] }

-- A number above all of these.
abbrev above : List ℕ → ℕ
above [] = 0
above (x ∷ xs) = suc x + above xs

abbrev create : Kernel → Answer ℕ × Kernel
create k = (done (above k.open_fds), record k { open_fds = above k.open_fds ∷ k.open_fds })

abbrev pub send_after : ℕ → List ℕ → Kernel → Answer ℕ × Kernel
send_after zero bytes k =
    let n = min 2 (length bytes) in (done n, record k { sent = k.sent ++ take n bytes })
send_after (suc n) bytes k = (failed interrupted, record k { signals = n })

abbrev receive_from : List (List ℕ) → ℕ → Kernel → Answer (List ℕ) × Kernel
receive_from [] size k = (failed again, k)
receive_from (bytes ∷ rest) size k = (done (take size bytes), record k { waiting = rest })

abbrev read_from : List NativeFrame → Kernel → Answer NativeFrame × Kernel
read_from [] k = (failed again, k)
read_from (frame ∷ rest) k = (done frame, record k { frames = rest })

abbrev pub sample : Os Kernel
sample = record {
  create = λ kind k. create k;
  close_fd = λ fd k. record k { open_fds = remove fd k.open_fds };
  set_option = λ fd o k. (done tt, k);
  nonblock = 0x800;
  get_flags = λ fd k. (done 2, k);
  set_flags = λ fd flags k. (done tt, k);
  parse_address = λ text. some (length text);
  bind = λ fd address port k. (done tt, k);
  connect = λ fd address port k. (done tt, k);
  listen = λ fd backlog k. (done tt, k);
  accept = λ fd k. create k;
  shutdown = λ fd k. k;
  send_bytes = λ fd bytes k. send_after k.signals bytes k;
  receive_bytes = λ fd size k. receive_from k.waiting size k;
  interface_index = λ fd name k. (done 3, k);
  bind_interface = λ fd index k. (done tt, k);
  write_frame = λ fd is_fd frame k. (done 16, record k { frames = frame ∷ k.frames });
  read_frame = λ fd is_fd k. read_from k.frames k;
}

remove-above : (fd : ℕ) (fds : List ℕ) → above fds ≤ fd → remove fd fds ≡ fds
remove-above fd [] h = refl
remove-above fd (x ∷ xs) h = ground (arith, remove-above fd xs (omega arith))

receive_from_fds :
    (waiting : List (List ℕ)) (size : ℕ) (k : Kernel)
    → (receive_from waiting size k).1.open_fds ≡ k.open_fds
receive_from_fds [] size k = refl
receive_from_fds (bytes ∷ rest) size k = refl

read_from_fds :
    (frames : List NativeFrame) (k : Kernel) → (read_from frames k).1.open_fds ≡ k.open_fds
read_from_fds [] k = refl
read_from_fds (frame ∷ rest) k = refl

send_after_fds :
    (n : ℕ) (bytes : List ℕ) (k : Kernel) → (send_after n bytes k).1.open_fds ≡ k.open_fds
send_after_fds zero bytes k = refl
send_after_fds (suc n) bytes k = refl

abbrev pub fds_of : Kernel → List ℕ
fds_of k = k.open_fds

pub sample-IsLawful : IsLawful sample fds_of
sample-IsLawful = record {
  after_create = λ kind k. refl;
  fresh = λ kind k. remove-above (above k.open_fds) k.open_fds (omega arith);
  after_accept = λ fd k. refl;
  after_close = λ fd k. refl;
  after_option = λ fd o k. refl;
  after_get_flags = λ fd k. refl;
  after_set_flags = λ fd flags k. refl;
  after_bind = λ fd address port k. refl;
  after_connect = λ fd address port k. refl;
  after_listen = λ fd backlog k. refl;
  after_shutdown = λ fd k. refl;
  after_send = λ fd bytes k. send_after_fds k.signals bytes k;
  after_receive = λ fd size k. receive_from_fds k.waiting size k;
  after_index = λ fd name k. refl;
  after_bind_interface = λ fd index k. refl;
  after_write = λ fd is_fd frame k. refl;
  after_read = λ fd is_fd k. read_from_fds k.frames k;
}
