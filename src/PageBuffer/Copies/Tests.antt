-- ===== src/PageBuffer/Copies/Tests.antt =====
-- `WriteTo` of six bytes on two pages (bufferpool/reader_writer.go).
use varc.Base.{
  ℕ, ◌≡◌, refl, sym, ap, inr, arith, false, none, some, List, [], ◌∷◌, ◌++◌, length, take_all,
}
use varc.PageBuffer.{Rw, Writer, Put}
use varc.PageBuffer.Bytes.{IsPages}
use varc.PageBuffer.Copies.{write_to}
use varc.PageBuffer.Copies.Drains.{IsWriter, Drained, write_to-Drained}

-- A writer that keeps all that it is given.
abbrev keeper : Writer (List ℕ)
keeper o bytes = (o ++ bytes, length bytes, none)

keeper-IsWriter : IsWriter keeper (λ o. o)
keeper-IsWriter = record {
  within = λ o p. omega arith;
  whole = λ o p e. refl;
  takes = λ o p. ap (λ xs. o ++ xs) (sym (take_all (length p) p (omega arith)));
}

abbrev two_pages : Rw
two_pages = record {
  buffer_size = 4;
  closed = false;
  active = 0;
  pages = (1 ∷ 2 ∷ 3 ∷ 4 ∷ []) ∷ (5 ∷ 6 ∷ 9 ∷ 9 ∷ []) ∷ [];
  size = 6;
  last_offset = 2;
  out = 1;
  reserved = [];
}

two_pages-IsPages : IsPages two_pages
two_pages-IsPages = record {
  positive = omega arith;
  sized = (refl, (refl, tt));
  spare = tt;
  fits = inr refl;
  last_fits = omega arith;
  inside = omega arith;
}

write_to-Drained_example :
    (r : Put (List ℕ)) × (write_to keeper two_pages [] ≡ some r)
    × Drained keeper (λ o. o) keeper-IsWriter two_pages [] r
write_to-Drained_example =
    write_to-Drained keeper (λ o. o) keeper-IsWriter two_pages [] two_pages-IsPages refl
