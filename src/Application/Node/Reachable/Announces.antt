-- ===== src/Application/Node/Reachable/Announces.antt =====
-- application.cpp and transmission_handler.cpp: when a node announces itself over its life, and as what.
use discnet.Host.{Host}
use discnet.Network.NetworkHandler
use discnet.Network.NetworkHandler.{NetworkHandler}
use discnet.Application.Configuration.{Configuration}
use discnet.Application.Node.{Node}
