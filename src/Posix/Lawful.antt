-- ===== src/Posix/Lawful.antt =====
-- What the proofs assume of the operating system: which descriptors are open after each call.
use com_lib.Posix.{Os, Answer, done, failed, SocketKind, SocketOption, NativeFrame}
use com_lib.Prelude.{ℕ, Bool, List, [], ◌∷◌, ◌≡◌, ◌==◌, if◌then◌else◌}

-- The first occurrence is taken out.
abbrev pub remove : ℕ → List ℕ → List ℕ
remove fd [] = []
remove fd (x ∷ xs) = if x == fd then xs else x ∷ remove fd xs

-- A call that creates a descriptor opens it, if it succeeds.
abbrev pub opened : Answer ℕ → List ℕ → List ℕ
opened (done fd) fds = fd ∷ fds
opened (failed e) fds = fds

-- A new descriptor is none of those that are open.
abbrev pub Fresh : Answer ℕ → List ℕ → Type 0
Fresh (done fd) fds = remove fd fds ≡ fds
Fresh (failed e) fds = Unit

-- The open descriptors, the last one first. Creating and accepting open one, closing closes one, and no
-- other call changes them.
pub record IsLawful {K : Type 0} (os : Os K) (descriptors : K → List ℕ) : Type 0 where
  pub after_create :
      (kind : SocketKind) (k : K)
      → descriptors (os.create kind k).1 ≡ opened (os.create kind k).0 (descriptors k)
  pub fresh : (kind : SocketKind) (k : K) → Fresh (os.create kind k).0 (descriptors k)
  pub after_accept :
      (fd : ℕ) (k : K) → descriptors (os.accept fd k).1 ≡ opened (os.accept fd k).0 (descriptors k)
  pub after_close : (fd : ℕ) (k : K) → descriptors (os.close_fd fd k) ≡ remove fd (descriptors k)
  pub after_option :
      (fd : ℕ) (o : SocketOption) (k : K) → descriptors (os.set_option fd o k).1 ≡ descriptors k
  pub after_get_flags : (fd : ℕ) (k : K) → descriptors (os.get_flags fd k).1 ≡ descriptors k
  pub after_set_flags :
      (fd flags : ℕ) (k : K) → descriptors (os.set_flags fd flags k).1 ≡ descriptors k
  pub after_bind :
      (fd address port : ℕ) (k : K) → descriptors (os.bind fd address port k).1 ≡ descriptors k
  pub after_connect :
      (fd address port : ℕ) (k : K) → descriptors (os.connect fd address port k).1 ≡ descriptors k
  pub after_listen :
      (fd backlog : ℕ) (k : K) → descriptors (os.listen fd backlog k).1 ≡ descriptors k
  pub after_shutdown : (fd : ℕ) (k : K) → descriptors (os.shutdown fd k) ≡ descriptors k
  pub after_send :
      (fd : ℕ) (bytes : List ℕ) (k : K) → descriptors (os.send_bytes fd bytes k).1 ≡ descriptors k
  pub after_receive :
      (fd size : ℕ) (k : K) → descriptors (os.receive_bytes fd size k).1 ≡ descriptors k
  pub after_index :
      (fd : ℕ) (name : List ℕ) (k : K)
      → descriptors (os.interface_index fd name k).1 ≡ descriptors k
  pub after_bind_interface :
      (fd index : ℕ) (k : K) → descriptors (os.bind_interface fd index k).1 ≡ descriptors k
  pub after_write :
      (fd : ℕ) (is_fd : Bool) (frame : NativeFrame) (k : K)
      → descriptors (os.write_frame fd is_fd frame k).1 ≡ descriptors k
  pub after_read :
      (fd : ℕ) (is_fd : Bool) (k : K) → descriptors (os.read_frame fd is_fd k).1 ≡ descriptors k
