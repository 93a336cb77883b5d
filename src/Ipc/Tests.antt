-- ===== src/Ipc/Tests.antt =====
-- A system whose calls succeed, one on which the size cannot be set, and the theorems there.
use rtmp_vcam.Prelude.{◌≡◌, refl, [], ◌∷◌, ok, err, arith}
use rtmp_vcam.Ipc.{
  pos, Libc, Entry, opened, closed, mapped, unmapped, SharedFrameBuffer, System, create,
  drop_buffer,
}
use rtmp_vcam.Ipc.Sample.{with_status, started}
use rtmp_vcam.Ipc.Balance.{FdGains, MapGains, owned_fd, owned_map, create-Gains, create-header}

abbrev buffer : SharedFrameBuffer
buffer = record { ptr = 4096; fd = pos 3 }

created : (create (with_status 0) (started 0)).0 ≡ ok buffer
unfolding create rtmp_vcam.Ipc.open_and_map rtmp_vcam.Ipc.is_negative
created = refl

created-entries : (create (with_status 0) (started 0)).1.entries ≡ mapped 4096 ∷ opened (pos 3) ∷ []
unfolding create rtmp_vcam.Ipc.open_and_map rtmp_vcam.Ipc.is_negative
created-entries = refl

not_sized :
    create (with_status 28) (started 28)
    ≡ (err 28, record { state = 0; shm = λ a. 0; entries = closed (pos 3) ∷ opened (pos 3) ∷ [] })
unfolding create rtmp_vcam.Ipc.open_and_map rtmp_vcam.Ipc.is_negative
not_sized = refl

dropped :
    (drop_buffer (with_status 0) buffer (started 0)).entries ≡ closed (pos 3) ∷ unmapped 4096 ∷ []
unfolding drop_buffer rtmp_vcam.Ipc.is_negative rtmp_vcam.Ipc.close_file
dropped = refl

create-Gains_example :
    let (r, s) = create (with_status 28) (started 28) in
    FdGains 3 [] s.entries (owned_fd 3 r) × MapGains 4096 [] s.entries (owned_map 4096 r)
create-Gains_example = create-Gains (with_status 28) 3 4096 (started 28)

create-header_example : (create (with_status 0) (started 0)).1.shm 8 ≡ 0
create-header_example = create-header (with_status 0) (started 0) buffer 8 created (omega arith)
