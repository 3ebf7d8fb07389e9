-- ===== src/Tag/Names/First.antt =====
-- types.gen.go: the numbers of tags and the names of their constants, the first third.
use go_rpm.Base.{ℕ, Bytes, List, [], ◌∷◌, codes}

unfoldable pub first_names : List (ℕ × Bytes)
first_names =
    (1000, codes "RPMTAG_NAME")
    ∷ (1001, codes "RPMTAG_VERSION")
    ∷ (1002, codes "RPMTAG_RELEASE")
    ∷ (1003, codes "RPMTAG_EPOCH")
    ∷ (1004, codes "RPMTAG_SUMMARY")
    ∷ (1005, codes "RPMTAG_DESCRIPTION")
    ∷ (1006, codes "RPMTAG_BUILDTIME")
    ∷ (1007, codes "RPMTAG_BUILDHOST")
    ∷ (1008, codes "RPMTAG_INSTALLTIME")
    ∷ (1009, codes "RPMTAG_SIZE")
    ∷ (1010, codes "RPMTAG_DISTRIBUTION")
    ∷ (1011, codes "RPMTAG_VENDOR")
    ∷ (1012, codes "RPMTAG_GIF")
    ∷ (1013, codes "RPMTAG_XPM")
    ∷ (1014, codes "RPMTAG_LICENSE")
    ∷ (1015, codes "RPMTAG_PACKAGER")
    ∷ (1016, codes "RPMTAG_GROUP")
    ∷ (1017, codes "RPMTAG_CHANGELOG")
    ∷ (1018, codes "RPMTAG_SOURCE")
    ∷ (1019, codes "RPMTAG_PATCH")
    ∷ (1020, codes "RPMTAG_URL")
    ∷ (1021, codes "RPMTAG_OS")
    ∷ (1022, codes "RPMTAG_ARCH")
    ∷ (1023, codes "RPMTAG_PREIN")
    ∷ (1024, codes "RPMTAG_POSTIN")
    ∷ (1025, codes "RPMTAG_PREUN")
    ∷ (1026, codes "RPMTAG_POSTUN")
    ∷ (1027, codes "RPMTAG_OLDFILENAMES")
    ∷ (1028, codes "RPMTAG_FILESIZES")
    ∷ (1029, codes "RPMTAG_FILESTATES")
    ∷ (1030, codes "RPMTAG_FILEMODES")
    ∷ (1031, codes "RPMTAG_FILEUIDS")
    ∷ (1032, codes "RPMTAG_FILEGIDS")
    ∷ (1033, codes "RPMTAG_FILERDEVS")
    ∷ (1034, codes "RPMTAG_FILEMTIMES")
    ∷ (1035, codes "RPMTAG_FILEDIGESTS")
    ∷ (1036, codes "RPMTAG_FILELINKTOS")
    ∷ (1037, codes "RPMTAG_FILEFLAGS")
    ∷ (1038, codes "RPMTAG_ROOT")
    ∷ (1039, codes "RPMTAG_FILEUSERNAME")
    ∷ (1040, codes "RPMTAG_FILEGROUPNAME")
    ∷ (1041, codes "RPMTAG_EXCLUDE")
    ∷ (1042, codes "RPMTAG_EXCLUSIVE")
    ∷ (1043, codes "RPMTAG_ICON")
    ∷ (1044, codes "RPMTAG_SOURCERPM")
    ∷ (1045, codes "RPMTAG_FILEVERIFYFLAGS")
    ∷ (1046, codes "RPMTAG_ARCHIVESIZE")
    ∷ (1047, codes "RPMTAG_PROVIDENAME")
    ∷ (1048, codes "RPMTAG_REQUIREFLAGS")
    ∷ (1049, codes "RPMTAG_REQUIRENAME")
    ∷ (1050, codes "RPMTAG_REQUIREVERSION")
    ∷ (1051, codes "RPMTAG_NOSOURCE")
    ∷ (1052, codes "RPMTAG_NOPATCH")
    ∷ (1053, codes "RPMTAG_CONFLICTFLAGS")
    ∷ (1054, codes "RPMTAG_CONFLICTNAME")
    ∷ (1055, codes "RPMTAG_CONFLICTVERSION")
    ∷ (1056, codes "RPMTAG_DEFAULTPREFIX")
    ∷ (1057, codes "RPMTAG_BUILDROOT")
    ∷ (1058, codes "RPMTAG_INSTALLPREFIX")
    ∷ (1059, codes "RPMTAG_EXCLUDEARCH")
    ∷ (1060, codes "RPMTAG_EXCLUDEOS")
    ∷ (1061, codes "RPMTAG_EXCLUSIVEARCH")
    ∷ (1062, codes "RPMTAG_EXCLUSIVEOS")
    ∷ (1063, codes "RPMTAG_AUTOREQPROV")
    ∷ (1064, codes "RPMTAG_RPMVERSION")
    ∷ (1065, codes "RPMTAG_TRIGGERSCRIPTS")
    ∷ (1066, codes "RPMTAG_TRIGGERNAME")
    ∷ (1067, codes "RPMTAG_TRIGGERVERSION")
    ∷ (1068, codes "RPMTAG_TRIGGERFLAGS")
    ∷ (1069, codes "RPMTAG_TRIGGERINDEX")
    ∷ (1079, codes "RPMTAG_VERIFYSCRIPT")
    ∷ (1080, codes "RPMTAG_CHANGELOGTIME")
    ∷ (1081, codes "RPMTAG_CHANGELOGNAME")
    ∷ (1082, codes "RPMTAG_CHANGELOGTEXT")
    ∷ (1083, codes "RPMTAG_BROKENMD5")
    ∷ (1084, codes "RPMTAG_PREREQ")
    ∷ (1085, codes "RPMTAG_PREINPROG")
    ∷ (1086, codes "RPMTAG_POSTINPROG")
    ∷ (1087, codes "RPMTAG_PREUNPROG")
    ∷ (1088, codes "RPMTAG_POSTUNPROG")
    ∷ (1089, codes "RPMTAG_BUILDARCHS")
    ∷ (1090, codes "RPMTAG_OBSOLETENAME")
    ∷ (1091, codes "RPMTAG_VERIFYSCRIPTPROG")
    ∷ (1092, codes "RPMTAG_TRIGGERSCRIPTPROG")
    ∷ (1093, codes "RPMTAG_DOCDIR")
    ∷ (1094, codes "RPMTAG_COOKIE")
    ∷ (1095, codes "RPMTAG_FILEDEVICES")
    ∷ (1096, codes "RPMTAG_FILEINODES")
    ∷ (1097, codes "RPMTAG_FILELANGS")
    ∷ (1098, codes "RPMTAG_PREFIXES")
    ∷ (1099, codes "RPMTAG_INSTPREFIXES")
    ∷ (1100, codes "RPMTAG_TRIGGERIN")
    ∷ (1101, codes "RPMTAG_TRIGGERUN")
    ∷ (1102, codes "RPMTAG_TRIGGERPOSTUN")
    ∷ (1103, codes "RPMTAG_AUTOREQ")
    ∷ (1104, codes "RPMTAG_AUTOPROV")
    ∷ (1105, codes "RPMTAG_CAPABILITY")
    ∷ (1106, codes "RPMTAG_SOURCEPACKAGE")
    ∷ (1107, codes "RPMTAG_OLDORIGFILENAMES")
    ∷ (1108, codes "RPMTAG_BUILDPREREQ")
    ∷ (1109, codes "RPMTAG_BUILDREQUIRES")
    ∷ (1110, codes "RPMTAG_BUILDCONFLICTS")
    ∷ (1111, codes "RPMTAG_BUILDMACROS")
    ∷ (1112, codes "RPMTAG_PROVIDEFLAGS")
    ∷ (1113, codes "RPMTAG_PROVIDEVERSION")
    ∷ []
