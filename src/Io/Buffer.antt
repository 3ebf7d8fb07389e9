-- ===== src/Io/Buffer.antt =====
-- bytes.Buffer keeps the contract of io.Writer and never fails.
use go_rpm.Base.{refl, sym, ap, Bytes, ◌++◌, take_all, length, arith}
use go_rpm.Io.Defs.{IsWriter, NeverFails, buffer_write}

pub buffer-IsWriter : IsWriter buffer_write (λ s. s)
buffer-IsWriter = record {
  takes = λ b s. ap (λ (t : Bytes). s ++ t) (sym (take_all b (length b) (omega arith)));
  count_le = λ b s. omega arith;
  count_full = λ b s h. refl;
}

pub buffer-NeverFails : NeverFails buffer_write
buffer-NeverFails b s = refl
