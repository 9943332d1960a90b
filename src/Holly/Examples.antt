-- ===== src/Holly/Examples.antt =====
-- The interrupt controller's theorems with every source masked but one.
use dream_recomp.Base.{◌≡◌, arith}
use dream_recomp.Holly.Intc.{Intc, raise, raised, write}
use dream_recomp.Holly.Intc.Routing.{IsRouted, raise-IsRouted, write-IsRouted}
use dream_recomp.Holly.Intc.Sources.{raised-raise}

abbrev controller : Intc
controller = record {
  istnrm = 0x8;
  istext = 0;
  isterr = 0;
  iml2nrm = 0;
  iml2ext = 0;
  iml2err = 0;
  iml4nrm = 0x8;
  iml4ext = 0;
  iml4err = 0;
  iml6nrm = 0;
  iml6ext = 0;
  iml6err = 0;
  cpu = record { ipra = 0; iprb = 0; iprc = 0; icr = 0; pending_bits = 2 };
}

raise-IsRouted_example : IsRouted (raise 33 controller)
raise-IsRouted_example = raise-IsRouted 33 controller

write-IsRouted_example : IsRouted (write 0x5f_6900 8 (raise 3 controller))
write-IsRouted_example =
    write-IsRouted 0x5f_6900 8 (raise 3 controller) (raise-IsRouted 3 controller)

raised-raise_example : raised (raise 33 controller) 1 ≡ raised controller 1
raised-raise_example = raised-raise 33 1 controller (omega arith) (omega arith)
