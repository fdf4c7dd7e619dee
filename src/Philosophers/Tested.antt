-- ===== src/Philosophers/Tested.antt =====
-- A test keeps what has_mutex of the philosophers.
use oscmp.Base.{ℕ, ◌<◌, ◌≡◌, arith}
use oscmp.Philosophers.Defs.{
  n_philosophers, left, right, take_hungry, take_tested, put_thinking, put_left, put_right, Table,
  phi_test_sema, goes,
}
use oscmp.Philosophers.Served.{left-right, right-ne, test-Served, of_self, of_left, of_right}
use oscmp.Philosophers.Invariant.{IsValid}

module _ (i : ℕ) (b : i < n_philosophers) (t u : Table) (h : IsValid t) where
  pub test_self-IsValid :
      t.place i ≡ take_hungry → goes i take_tested (phi_test_sema i t) ≡ u → IsValid u
  unfolding phi_test_sema
  test_self-IsValid at e =
      let served =
        test-Served i b t.state_sema t.place h.served take_hungry take_tested i of_self at in
      record {
        one = λ j c. ground (arith, h.one i b, h.one j c, h.alone i j b c);
        alone = λ j k c d ne. ground (
          arith,
          h.one i b,
          h.one j c,
          h.one k d,
          h.alone j k c d,
          h.alone i j b c,
          h.alone i k b d,
        );
        fits = λ j c. ground (arith, h.fits i b, h.fits j c, h.alone i j b c);
        apart = λ j c. ground (arith, h.apart j c, right-ne j c, left-right j c);
        served = λ j c. ground (arith, served j c);
      }

  pub test_left-IsValid :
      t.place i ≡ put_thinking → goes i put_left (phi_test_sema (left i) t) ≡ u → IsValid u
  unfolding phi_test_sema
  test_left-IsValid at e =
      let served =
        test-Served i b t.state_sema t.place h.served put_thinking put_left (left i) of_left at in
      record {
        one = λ j c. ground (arith, h.one i b, h.one j c, h.alone i j b c);
        alone = λ j k c d ne. ground (
          arith,
          h.one i b,
          h.one j c,
          h.one k d,
          h.alone j k c d,
          h.alone i j b c,
          h.alone i k b d,
        );
        fits = λ j c. ground (arith, h.fits i b, h.fits j c, h.alone i j b c);
        apart = λ j c. ground (arith, h.apart j c, right-ne j c, left-right j c);
        served = λ j c. ground (arith, served j c);
      }

  pub test_right-IsValid :
      t.place i ≡ put_left → goes i put_right (phi_test_sema (right i) t) ≡ u → IsValid u
  unfolding phi_test_sema
  test_right-IsValid at e =
      let served =
        test-Served i b t.state_sema t.place h.served put_left put_right (right i) of_right at in
      record {
        one = λ j c. ground (arith, h.one i b, h.one j c, h.alone i j b c);
        alone = λ j k c d ne. ground (
          arith,
          h.one i b,
          h.one j c,
          h.one k d,
          h.alone j k c d,
          h.alone i j b c,
          h.alone i k b d,
        );
        fits = λ j c. ground (arith, h.fits i b, h.fits j c, h.alone i j b c);
        apart = λ j c. ground (arith, h.apart j c, right-ne j c, left-right j c);
        served = λ j c. ground (arith, served j c);
      }
