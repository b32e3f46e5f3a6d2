-- ===== src/Families.antt =====
-- The modfirst functions of the protocol's families (src/misc.c, service.c, info.c, buddylist.c, im.c,
-- adverts.c, invite.c, admin.c, popups.c, bos.c, search.c, stats.c, translate.c, chatnav.c, chat.c,
-- ssi.c, icq.c and auth.c): what each fills into the zeroed module that aim__registermodule hands it.
-- A handler is known by the number of its family, the name is in ASCII.
use libfaim.Prelude.{Option, none, some, [], ◌∷◌}
use libfaim.Rxhandlers.{Module}

abbrev pub misc_modfirst : Option Module
misc_modfirst = some (record {
  family = 0xffff;
  version = 0;
  toolid = 0;
  toolversion = 0;
  flags = 1;
  name = 0x6d ∷ 0x69 ∷ 0x73 ∷ 0x63 ∷ [];
  snachandler = some 0xffff;
  shutdown = none;
})

abbrev pub general_modfirst : Option Module
general_modfirst = some (record {
  family = 1;
  version = 3;
  toolid = 0x110;
  toolversion = 0x47b;
  flags = 0;
  name = 0x67 ∷ 0x65 ∷ 0x6e ∷ 0x65 ∷ 0x72 ∷ 0x61 ∷ 0x6c ∷ [];
  snachandler = some 1;
  shutdown = none;
})

abbrev pub locate_modfirst : Option Module
locate_modfirst = some (record {
  family = 2;
  version = 1;
  toolid = 0x101;
  toolversion = 0x47b;
  flags = 0;
  name = 0x6c ∷ 0x6f ∷ 0x63 ∷ 0x61 ∷ 0x74 ∷ 0x65 ∷ [];
  snachandler = some 2;
  shutdown = none;
})

abbrev pub buddylist_modfirst : Option Module
buddylist_modfirst = some (record {
  family = 3;
  version = 1;
  toolid = 0x110;
  toolversion = 0x47b;
  flags = 0;
  name = 0x62 ∷ 0x75 ∷ 0x64 ∷ 0x64 ∷ 0x79 ∷ 0x6c ∷ 0x69 ∷ 0x73 ∷ 0x74 ∷ [];
  snachandler = some 3;
  shutdown = none;
})

abbrev pub msg_modfirst : Option Module
msg_modfirst = some (record {
  family = 4;
  version = 1;
  toolid = 0x110;
  toolversion = 0x47b;
  flags = 0;
  name = 0x6d ∷ 0x65 ∷ 0x73 ∷ 0x73 ∷ 0x61 ∷ 0x67 ∷ 0x69 ∷ 0x6e ∷ 0x67 ∷ [];
  snachandler = some 4;
  shutdown = none;
})

abbrev pub adverts_modfirst : Option Module
adverts_modfirst = some (record {
  family = 5;
  version = 1;
  toolid = 1;
  toolversion = 1;
  flags = 0;
  name = 0x61 ∷ 0x64 ∷ 0x76 ∷ 0x65 ∷ 0x72 ∷ 0x74 ∷ 0x73 ∷ [];
  snachandler = some 5;
  shutdown = none;
})

abbrev pub invite_modfirst : Option Module
invite_modfirst = some (record {
  family = 6;
  version = 1;
  toolid = 0x110;
  toolversion = 0x47b;
  flags = 0;
  name = 0x69 ∷ 0x6e ∷ 0x76 ∷ 0x69 ∷ 0x74 ∷ 0x65 ∷ [];
  snachandler = none;
  shutdown = none;
})

abbrev pub admin_modfirst : Option Module
admin_modfirst = some (record {
  family = 7;
  version = 1;
  toolid = 0x10;
  toolversion = 0x361;
  flags = 0;
  name = 0x61 ∷ 0x64 ∷ 0x6d ∷ 0x69 ∷ 0x6e ∷ [];
  snachandler = some 7;
  shutdown = none;
})

abbrev pub popups_modfirst : Option Module
popups_modfirst = some (record {
  family = 8;
  version = 1;
  toolid = 0x104;
  toolversion = 1;
  flags = 0;
  name = 0x70 ∷ 0x6f ∷ 0x70 ∷ 0x75 ∷ 0x70 ∷ 0x73 ∷ [];
  snachandler = some 8;
  shutdown = none;
})

abbrev pub bos_modfirst : Option Module
bos_modfirst = some (record {
  family = 9;
  version = 1;
  toolid = 0x110;
  toolversion = 0x47b;
  flags = 0;
  name = 0x62 ∷ 0x6f ∷ 0x73 ∷ [];
  snachandler = some 9;
  shutdown = none;
})

abbrev pub search_modfirst : Option Module
search_modfirst = some (record {
  family = 0xa;
  version = 1;
  toolid = 0x110;
  toolversion = 0x47b;
  flags = 0;
  name = 0x73 ∷ 0x65 ∷ 0x61 ∷ 0x72 ∷ 0x63 ∷ 0x68 ∷ [];
  snachandler = some 0xa;
  shutdown = none;
})

abbrev pub stats_modfirst : Option Module
stats_modfirst = some (record {
  family = 0xb;
  version = 1;
  toolid = 0x104;
  toolversion = 1;
  flags = 0;
  name = 0x73 ∷ 0x74 ∷ 0x61 ∷ 0x74 ∷ 0x73 ∷ [];
  snachandler = some 0xb;
  shutdown = none;
})

abbrev pub translate_modfirst : Option Module
translate_modfirst = some (record {
  family = 0xc;
  version = 1;
  toolid = 0x104;
  toolversion = 1;
  flags = 0;
  name = 0x74 ∷ 0x72 ∷ 0x61 ∷ 0x6e ∷ 0x73 ∷ 0x6c ∷ 0x61 ∷ 0x74 ∷ 0x65 ∷ [];
  snachandler = none;
  shutdown = none;
})

abbrev pub chatnav_modfirst : Option Module
chatnav_modfirst = some (record {
  family = 0xd;
  version = 1;
  toolid = 0x10;
  toolversion = 0x47c;
  flags = 0;
  name = 0x63 ∷ 0x68 ∷ 0x61 ∷ 0x74 ∷ 0x6e ∷ 0x61 ∷ 0x76 ∷ [];
  snachandler = some 0xd;
  shutdown = none;
})

abbrev pub chat_modfirst : Option Module
chat_modfirst = some (record {
  family = 0xe;
  version = 1;
  toolid = 4;
  toolversion = 1;
  flags = 0;
  name = 0x63 ∷ 0x68 ∷ 0x61 ∷ 0x74 ∷ [];
  snachandler = some 0xe;
  shutdown = none;
})

abbrev pub ssi_modfirst : Option Module
ssi_modfirst = some (record {
  family = 0x13;
  version = 1;
  toolid = 0x110;
  toolversion = 0x47b;
  flags = 0;
  name = 0x73 ∷ 0x73 ∷ 0x69 ∷ [];
  snachandler = some 0x13;
  shutdown = none;
})

abbrev pub icq_modfirst : Option Module
icq_modfirst = some (record {
  family = 0x15;
  version = 1;
  toolid = 0x110;
  toolversion = 0x47b;
  flags = 0;
  name = 0x69 ∷ 0x63 ∷ 0x71 ∷ [];
  snachandler = some 0x15;
  shutdown = none;
})

abbrev pub auth_modfirst : Option Module
auth_modfirst = some (record {
  family = 0x17;
  version = 0;
  toolid = 0;
  toolversion = 0;
  flags = 0;
  name = 0x61 ∷ 0x75 ∷ 0x74 ∷ 0x68 ∷ [];
  snachandler = some 0x17;
  shutdown = none;
})
