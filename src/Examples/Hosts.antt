-- ===== src/Examples/Hosts.antt =====
-- A host with one file, of which the handle has a position.
use chton.Prelude.{
  zero, suc, length-take, length-append, sym, ◌∙◌, ap, suc, length-drop, ◌≤◌, ◌^◌, ℕ, ◌+◌, ◌-◌, ◌≡◌,
  ◌<◌, min, refl, arith, List, [], ◌∷◌, ◌++◌, length, take, drop, take-all,
}
use chton.Prelude.Splice.{splice}
use chton.Prelude.Outcome.{ok, done, error}
use chton.Origin.Memory.{grown}
use chton.Origin.Memory.Medium.{length-grown}
use chton.Origin.Host.{delivered, Host, HostLaws, IsStart}
use chton.Origin.{unsupported, out_of_bounds}
use chton.Origin.Host.Simulates.{Simulates}
use chton.Origin.Host.File as File
use chton.Origin.Host.File.Laws as FileLaws
use chton.Origin.Host.File.Laws.{Touches, file-Simulates}
use chton.Origin.Host.Mapped as Mapped
use chton.Origin.Host.Mapped.Laws as MappedLaws
use chton.Origin.Host.Mapped.Laws.{mapped-Simulates}

record Handle : Type 0 where
  pub bytes : List ℕ
  pub position : ℕ

-- A read delivers at most two bytes.
abbrev read_handle : List ℕ → Handle → List ℕ × ℕ
read_handle buf f =
    let n = min (min (length f.bytes - f.position) (length buf)) 2 in
    (take n (drop f.position f.bytes) ++ drop n buf, n)

take-take_append :
    (n m : ℕ) (xs ys : List ℕ) → n ≤ m → m ≤ length xs → take n (take m xs ++ ys) ≡ take n xs
take-take_append zero m xs ys h k = refl
take-take_append (suc n) zero xs ys h k = absurd (omega arith)
take-take_append (suc n) (suc m) [] ys h k = absurd (omega arith)
take-take_append (suc n) (suc m) (x ∷ xs) ys h k =
    ap (λ (l : List ℕ). x ∷ l) (take-take_append n m xs ys (omega arith) (omega arith))

read_handle-IsStart :
    (f : Handle) (buf : List ℕ) → IsStart (read_handle buf f) (delivered f.position f.bytes buf)
read_handle-IsStart f buf =
    let m = min (length f.bytes - f.position) (length buf) in
    let rest = drop f.position f.bytes in
    let there : m ≤ length rest = omega (arith, length-drop f.position f.bytes) in
    record {
      count = omega arith;
      some_byte = λ positive. omega arith;
      same_bytes =
          take-take_append (min m 2) (min m 2) rest (drop (min m 2) buf) (omega arith) (omega arith)
          ∙ sym (take-take_append (min m 2) m rest (drop m buf) (omega arith) there);
      same_length = omega (
        arith,
        length-append (take (min m 2) rest) (drop (min m 2) buf),
        length-append (take m rest) (drop m buf),
        length-take (min m 2) rest,
        length-take m rest,
        length-drop (min m 2) buf,
        length-drop m buf,
      );
    }

abbrev write_handle : List ℕ → Handle → List ℕ
write_handle [] f = f.bytes
write_handle (b ∷ bytes) f =
    splice (grown f.bytes (f.position + length (b ∷ bytes))) f.position (b ∷ bytes)

abbrev one_file : Host
one_file = record {
  File = Handle;
  metadata_len = λ f. ok (length f.bytes);
  seek = λ offset f. done tt (record f { position = offset });
  read = λ buf f. done (read_handle buf f) f;
  write_all = λ bytes f. done tt (record f { bytes = write_handle bytes f });
  set_len = λ n f. done tt (record f { bytes = take n (grown f.bytes n) });
  flush = λ f. done tt f;
  sync_all = λ f. done tt f;
  map_mut = λ f. ok (length f.bytes);
  mapped = λ n f. take n f.bytes;
  store = λ at bytes f. record f { bytes = splice f.bytes at bytes };
  map_flush = λ f. done tt f;
}

write_nothing : (f : Handle) (bytes : List ℕ) → length bytes ≡ 0 → write_handle bytes f ≡ f.bytes
write_nothing f [] e = refl
write_nothing f (b ∷ bytes) e = absurd (omega arith)

write_some :
    (f : Handle) (bytes : List ℕ)
    → 0 < length bytes
    → write_handle bytes f ≡ splice (grown f.bytes (f.position + length bytes)) f.position bytes
write_some f [] h = absurd (omega arith)
write_some f (b ∷ bytes) h = refl

one_file-HostLaws : HostLaws one_file (λ f. f.bytes) (λ f. f.position)
one_file-HostLaws = record {
  len_known = λ f. refl;
  seeks = λ f offset. (
    record { after = record f { position = offset }; returns = refl; contents_after = refl },
    refl,
  );
  reads = λ f buf. (
    read_handle buf f,
    record { after = f; returns = refl; contents_after = refl },
    read_handle-IsStart f buf,
  );
  writes = λ f bytes h. record {
    after = record f { bytes = write_handle bytes f };
    returns = refl;
    contents_after = write_some f bytes h;
  };
  writes_nothing = λ f bytes e. record {
    after = record f { bytes = write_handle bytes f };
    returns = refl;
    contents_after = write_nothing f bytes e;
  };
  extends = λ f n h. record {
    after = record f { bytes = take n (grown f.bytes n) };
    returns = refl;
    contents_after = take-all n (grown f.bytes n) (omega (arith, length-grown f.bytes n));
  };
  flushes = λ f. record { after = f; returns = refl; contents_after = refl };
  syncs = λ f. record { after = f; returns = refl; contents_after = refl };
  maps = λ f h. refl;
  mapped_lem = λ f. take-all (length f.bytes) f.bytes (omega arith);
  stores = λ f at bytes h. refl;
  map_flushes = λ f. record { after = f; returns = refl; contents_after = refl };
}

file-Simulates_example :
    Simulates
      (λ (f : Handle). f.bytes)
      (File.open_file one_file)
      (File.len one_file)
      (File.read one_file)
      (File.write one_file)
      (File.flush one_file)
      (FileLaws.Shows one_file (λ f. f.bytes) (λ f. f.position))
      Touches
      IsStart
      (λ offset. unsupported)
file-Simulates_example = file-Simulates one_file-HostLaws

mapped-Simulates_example :
    Simulates
      (λ (f : Handle). f.bytes)
      (Mapped.open_file one_file)
      (Mapped.len one_file)
      (Mapped.read one_file)
      (Mapped.write one_file)
      (Mapped.flush one_file)
      (MappedLaws.Shows one_file (λ f. f.bytes) (λ f. f.position))
      (λ xs offset bytes. Unit {0})
      (λ r whole. r ≡ whole)
      (λ offset. error (out_of_bounds offset (2 ^ 64 - 1)))
mapped-Simulates_example = mapped-Simulates one_file-HostLaws
